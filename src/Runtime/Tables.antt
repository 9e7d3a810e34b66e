-- ===== src/Runtime/Tables.antt =====
-- The wrappers of web/src/lib/readonly-assistant-runtime.ts, each by its properties.
use codex_mcp_ui.Common.{Bool, true, false, [], ◌∷◌, ◌++◌}
use codex_mcp_ui.Common.Table.{Table}
use codex_mcp_ui.Runtime.{
  Kind, runtime, thread_list, thread_list_item, thread, message, composer, part, attachment, Entry,
}

abbrev pub readonly_runtime : Table Entry
readonly_runtime =
    ("threads", Entry.wraps thread_list)
    ∷ ("thread", Entry.wraps thread)
    ∷ ("threadList", Entry.wraps thread_list)
    ∷ ("switchToNewThread", Entry.throws "runtime.switchToNewThread")
    ∷ ("switchToThread", Entry.throws "runtime.switchToThread")
    ∷ ("registerModelContextProvider", Entry.bound)
    ∷ ("registerModelConfigProvider", Entry.bound)
    ∷ ("reset", Entry.throws "runtime.reset")
    ∷ []

abbrev pub readonly_thread_list : Table Entry
readonly_thread_list =
    ("getState", Entry.bound)
    ∷ ("subscribe", Entry.bound)
    ∷ ("main", Entry.wraps thread)
    ∷ ("getById", Entry.wraps thread)
    ∷ ("mainItem", Entry.wraps thread_list_item)
    ∷ ("getItemById", Entry.wraps thread_list_item)
    ∷ ("getItemByIndex", Entry.wraps thread_list_item)
    ∷ ("getArchivedItemByIndex", Entry.wraps thread_list_item)
    ∷ ("switchToThread", Entry.rejects "threadList.switchToThread")
    ∷ ("switchToNewThread", Entry.rejects "threadList.switchToNewThread")
    ∷ ("getLoadThreadsPromise", Entry.bound)
    ∷ []

abbrev pub readonly_thread_list_item : Table Entry
readonly_thread_list_item =
    ("path", Entry.copied)
    ∷ ("getState", Entry.bound)
    ∷ ("initialize", Entry.rejects "threadListItem.initialize")
    ∷ ("generateTitle", Entry.rejects "threadListItem.generateTitle")
    ∷ ("switchTo", Entry.rejects "threadListItem.switchTo")
    ∷ ("rename", Entry.rejects "threadListItem.rename")
    ∷ ("archive", Entry.rejects "threadListItem.archive")
    ∷ ("unarchive", Entry.rejects "threadListItem.unarchive")
    ∷ ("delete", Entry.rejects "threadListItem.delete")
    ∷ ("detach", Entry.throws "threadListItem.detach")
    ∷ ("subscribe", Entry.bound)
    ∷ ("unstable_on", Entry.bound)
    ∷ ("__internal_getRuntime", Entry.again)
    ∷ []

abbrev pub readonly_thread : Table Entry
readonly_thread =
    ("path", Entry.copied)
    ∷ ("composer", Entry.wraps composer)
    ∷ ("getState", Entry.adjusted)
    ∷ ("append", Entry.throws "thread.append")
    ∷ ("startRun", Entry.throws "thread.startRun")
    ∷ ("resumeRun", Entry.throws "thread.resumeRun")
    ∷ ("unstable_resumeRun", Entry.throws "thread.unstable_resumeRun")
    ∷ ("exportExternalState", Entry.bound)
    ∷ ("importExternalState", Entry.throws "thread.importExternalState")
    ∷ ("unstable_loadExternalState", Entry.throws "thread.unstable_loadExternalState")
    ∷ ("subscribe", Entry.bound)
    ∷ ("cancelRun", Entry.throws "thread.cancelRun")
    ∷ ("getModelContext", Entry.bound)
    ∷ ("getModelConfig", Entry.bound)
    ∷ ("export", Entry.bound)
    ∷ ("import", Entry.throws "thread.import")
    ∷ ("reset", Entry.throws "thread.reset")
    ∷ ("getMessageByIndex", Entry.wraps message)
    ∷ ("getMessageById", Entry.wraps message)
    ∷ ("stopSpeaking", Entry.throws "thread.stopSpeaking")
    ∷ ("connectVoice", Entry.throws "thread.connectVoice")
    ∷ ("disconnectVoice", Entry.throws "thread.disconnectVoice")
    ∷ ("getVoiceVolume", Entry.bound)
    ∷ ("subscribeVoiceVolume", Entry.bound)
    ∷ ("muteVoice", Entry.throws "thread.muteVoice")
    ∷ ("unmuteVoice", Entry.throws "thread.unmuteVoice")
    ∷ ("unstable_on", Entry.bound)
    ∷ []

abbrev pub readonly_message : Table Entry
readonly_message =
    ("path", Entry.copied)
    ∷ ("composer", Entry.wraps composer)
    ∷ ("getState", Entry.bound)
    ∷ ("reload", Entry.throws "message.reload")
    ∷ ("speak", Entry.throws "message.speak")
    ∷ ("stopSpeaking", Entry.throws "message.stopSpeaking")
    ∷ ("submitFeedback", Entry.throws "message.submitFeedback")
    ∷ ("switchToBranch", Entry.throws "message.switchToBranch")
    ∷ ("unstable_getCopyText", Entry.bound)
    ∷ ("subscribe", Entry.bound)
    ∷ ("getMessagePartByIndex", Entry.wraps part)
    ∷ ("getMessagePartByToolCallId", Entry.wraps part)
    ∷ ("getAttachmentByIndex", Entry.wraps attachment)
    ∷ []

-- A composer that can begin an edit has one property more.
abbrev begin_edit : Bool → Table Entry
begin_edit true = ("beginEdit", Entry.throws "composer.beginEdit") ∷ []
begin_edit false = []

abbrev pub readonly_composer : Bool → Table Entry
readonly_composer has_begin_edit =
    (("path", Entry.copied)
      ∷ ("type", Entry.copied)
      ∷ ("getState", Entry.adjusted)
      ∷ ("addAttachment", Entry.rejects "composer.addAttachment")
      ∷ ("setText", Entry.throws "composer.setText")
      ∷ ("setRole", Entry.throws "composer.setRole")
      ∷ ("setRunConfig", Entry.throws "composer.setRunConfig")
      ∷ ("reset", Entry.rejects "composer.reset")
      ∷ ("clearAttachments", Entry.rejects "composer.clearAttachments")
      ∷ ("send", Entry.throws "composer.send")
      ∷ ("cancel", Entry.throws "composer.cancel")
      ∷ ("subscribe", Entry.bound)
      ∷ ("getAttachmentByIndex", Entry.wraps attachment)
      ∷ ("startDictation", Entry.throws "composer.startDictation")
      ∷ ("stopDictation", Entry.throws "composer.stopDictation")
      ∷ ("setQuote", Entry.throws "composer.setQuote")
      ∷ ("unstable_on", Entry.bound)
      ∷ [])
    ++ begin_edit has_begin_edit

abbrev pub readonly_part : Table Entry
readonly_part =
    ("path", Entry.copied)
    ∷ ("getState", Entry.bound)
    ∷ ("subscribe", Entry.bound)
    ∷ ("addToolResult", Entry.throws "messagePart.addToolResult")
    ∷ ("resumeToolCall", Entry.throws "messagePart.resumeToolCall")
    ∷ []

abbrev pub readonly_attachment : Table Entry
readonly_attachment =
    ("path", Entry.copied)
    ∷ ("source", Entry.copied)
    ∷ ("getState", Entry.bound)
    ∷ ("subscribe", Entry.bound)
    ∷ ("remove", Entry.rejects "attachment.remove")
    ∷ []

-- The wrapper of an object; a composer is one that can begin an edit, or not.
abbrev pub readonly : Bool → Kind → Table Entry
readonly has_begin_edit runtime = readonly_runtime
readonly has_begin_edit thread_list = readonly_thread_list
readonly has_begin_edit thread_list_item = readonly_thread_list_item
readonly has_begin_edit thread = readonly_thread
readonly has_begin_edit message = readonly_message
readonly has_begin_edit composer = readonly_composer has_begin_edit
readonly has_begin_edit part = readonly_part
readonly has_begin_edit attachment = readonly_attachment
