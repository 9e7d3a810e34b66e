-- ===== src/Payload/Fence.antt =====
-- `HighlightedCode` of web/src/components/message-block.tsx puts a text between the fences of a code
-- block: no line of a payload's text can end the block.
use Prim.Native.Char.{Char, code}
use Prim.Native.String.append as append_laws
use codex_mcp_ui.Common.{
  ℕ, String, ◌≡◌, refl, ◌∙◌, ap, Bool, true, false, Option, none, some, nat_eq, ltb, ◌/◌, ◌%◌,
  if◌then◌else◌, if_either, if_both, arith, zero, suc, truthy, ◌≤◌, ◌≢◌, List, [], ◌∷◌, All,
}
use codex_mcp_ui.Common.Text.{append}
use codex_mcp_ui.Json.{
  Number, Json, Items, Fields, null, bool, number, string, array, object, nil, cons, end, field,
}
use codex_mcp_ui.Payload.{
  nth_digit, hex_digits, escape, escape_all, quote, pretty, more_items, more_fields,
}

-- Whether the text so far ends in spaces at the start of a line; none after a backtick at such a
-- place, with which alone a fence can start.
unfoldable pub line_start : Bool → Char → Option Bool
line_start b c =
    let n = code c in
    if nat_eq n 10
    then some true
    else if nat_eq n 0x20
    then some b
    else if nat_eq n 0x60
    then (if b then none else some false)
    else some false

unfoldable pub read_lines : Option Bool → String → Option Bool
read_lines none s = none
read_lines (some b) String.[] = some b
read_lines (some b) (String.◌∷◌ c s) = read_lines (line_start b c) s

read_lines-append :
    (o : Option Bool) (s t : String) → read_lines o (append s t) ≡ read_lines (read_lines o s) t
unfolding read_lines
read_lines-append none s t = refl
read_lines-append (some b) String.[] t = ap (read_lines (some b)) (append_laws.nil t)
read_lines-append (some b) (String.◌∷◌ c s) t =
    ap (read_lines (some b)) (append_laws.cons c s t) ∙ read_lines-append (line_start b c) s t

-- Wherever the text starts, it ends within a line.
abbrev Settles : String → Type 0
Settles s = (b : Bool) → read_lines (some b) s ≡ some false

-- Within a line, it stays there.
abbrev Stays : String → Type 0
Stays s = read_lines (some false) s ≡ some false

-- Spaces at the start of a line.
abbrev IsMargin : String → Type 0
IsMargin s = read_lines (some true) s ≡ some true

Stays-append : (s t : String) → Stays s → Stays t → Stays (append s t)
Stays-append s t p q = rw (read_lines-append (some false) s t, p) q

nth_digit-Stays : (ds : List String) (i : ℕ) → All Stays ds → Stays (nth_digit ds i)
unfolding read_lines
nth_digit-Stays [] i h = refl
nth_digit-Stays (d ∷ ds) zero h = h.0
nth_digit-Stays (d ∷ ds) (suc i) h = nth_digit-Stays ds i h.1

hex-Stays : (i : ℕ) → Stays (nth_digit hex_digits i)
unfolding read_lines line_start
hex-Stays i = nth_digit-Stays hex_digits i (
  refl,
  (
    refl,
    (
      refl,
      (
        refl,
        (
          refl,
          (
            refl,
            (refl, (refl, (refl, (refl, (refl, (refl, (refl, (refl, (refl, (refl, tt)))))))))),
          ),
        ),
      ),
    ),
  ),
)

control-Stays :
    (i j : ℕ) → Stays (append "\\u00" (append (nth_digit hex_digits i) (nth_digit hex_digits j)))
unfolding read_lines line_start
control-Stays i j =
    Stays-append "\\u00" (append (nth_digit hex_digits i) (nth_digit hex_digits j)) refl
      (Stays-append (nth_digit hex_digits i) (nth_digit hex_digits j) (hex-Stays i) (hex-Stays j))

-- A text in quotes holds no line feed.
escape-Stays : (c : Char) → Stays (escape c)
unfolding read_lines line_start escape
escape-Stays c =
    let n = code c in
    if_both Stays (nat_eq n 0x22) refl (
      if_both Stays (nat_eq n 0x5c) refl (
        if_both Stays (nat_eq n 8) refl (
          if_both Stays (nat_eq n 12) refl (
            if_either Stays (nat_eq n 10) (λ feed. refl)
              (λ other. if_both Stays (nat_eq n 13) refl (
                if_both Stays (nat_eq n 9) refl (
                  if_both Stays (ltb n 0x20) (control-Stays (n / 16) (n % 16)) (ground arith))))))))

escape_all-Stays : (s : String) → Stays (escape_all s)
unfolding read_lines escape_all
escape_all-Stays String.[] = refl
escape_all-Stays (String.◌∷◌ c s) =
    Stays-append (escape c) (escape_all s) (escape-Stays c) (escape_all-Stays s)

opens : (b : Bool) → read_lines (some b) "\"" ≡ some false
unfolding read_lines line_start
opens b = refl

quote-Settles : (s : String) → Settles (quote s)
unfolding quote
quote-Settles s b =
    rw (read_lines-append (some b) "\"" (append (escape_all s) "\""), opens b)
      (Stays-append (escape_all s) "\"" (escape_all-Stays s) (opens false))

deeper-IsMargin : (margin : String) → IsMargin margin → IsMargin (append margin "  ")
unfolding read_lines line_start
deeper-IsMargin margin h = rw (read_lines-append (some true) margin "  ", h) refl

-- The characters of a number: digits, the point, the signs and the `e` of an exponent.
abbrev pub IsNumeral : String → Type 0
IsNumeral String.[] = Unit
IsNumeral (String.◌∷◌ c s) = (0x2b ≤ code c) × (code c ≤ 0x65) × (code c ≢ 0x60) × IsNumeral s

numeral_char :
    (b : Bool) (c : Char)
    → 0x2b ≤ code c
    → code c ≤ 0x65
    → code c ≢ 0x60
    → line_start b c ≡ some false
unfolding line_start
numeral_char b c low high ne = ground arith

numeral-Stays : (s : String) → IsNumeral s → Stays s
unfolding read_lines
numeral-Stays String.[] h = refl
numeral-Stays (String.◌∷◌ c s) (low, high, ne, rest) =
    ap (λ o. read_lines o s) (numeral_char false c low high ne) ∙ numeral-Stays s rest

numeral-Settles : (s : String) → truthy s ≡ true → IsNumeral s → Settles s
unfolding read_lines
numeral-Settles String.[] given h b = cc
numeral-Settles (String.◌∷◌ c s) given (low, high, ne, rest) b =
    ap (λ o. read_lines o s) (numeral_char b c low high ne) ∙ numeral-Stays s rest

ruleset reading = (read_lines-append)

module _ (number_text : Number → String)
    (numerals : (n : Number) → (truthy (number_text n) ≡ true) × IsNumeral (number_text n)) where
  abbrev PrettySettles : Json → Type 0
  PrettySettles v = (margin : String) → IsMargin margin → Settles (pretty number_text margin v)

  abbrev ItemsStay : Items → Type 0
  ItemsStay vs = (margin : String) → IsMargin margin → Stays (more_items number_text margin vs)

  abbrev FieldsStay : Fields → Type 0
  FieldsStay fs = (margin : String) → IsMargin margin → Stays (more_fields number_text margin fs)

  mutual
    unfolding read_lines line_start pretty

    pretty-Settles : (v : Json) → PrettySettles v
    pretty-Settles null margin h b = refl
    pretty-Settles (bool true) margin h b = refl
    pretty-Settles (bool false) margin h b = refl
    pretty-Settles (number n) margin h b =
        numeral-Settles (number_text n) (numerals n).0 (numerals n).1 b
    pretty-Settles (string s) margin h b = quote-Settles s b
    pretty-Settles (array nil) margin h b = refl
    pretty-Settles (array (cons v vs)) margin h b =
        let deeper = append margin "  " in
        let d = deeper-IsMargin margin h in
        simp (reading, h, pretty-Settles v deeper d true, more_items-Stays vs deeper d)
    pretty-Settles (object end) margin h b = refl
    pretty-Settles (object (field k v fs)) margin h b =
        let deeper = append margin "  " in
        let d = deeper-IsMargin margin h in
        simp (
          reading,
          h,
          quote-Settles k true,
          pretty-Settles v deeper d false,
          more_fields-Stays fs deeper d,
        )

    more_items-Stays : (vs : Items) → ItemsStay vs
    more_items-Stays nil margin h = refl
    more_items-Stays (cons v vs) margin h =
        simp (reading, h, pretty-Settles v margin h true, more_items-Stays vs margin h)

    more_fields-Stays : (fs : Fields) → FieldsStay fs
    more_fields-Stays end margin h = refl
    more_fields-Stays (field k v fs) margin h = simp (
      reading,
      h,
      quote-Settles k true,
      pretty-Settles v margin h false,
      more_fields-Stays fs margin h,
    )

  -- If numbers print as digits, signs, points and exponents: where HighlightedCode is given the text
  -- of a payload, no line of it starts, after its spaces, with a backtick, so that none can end the
  -- code block; and the last line is not blank, so that the fence behind it stands on a line of its
  -- own.
  pub pretty_payload-Settles :
      (payload : Json) → read_lines (some true) (pretty number_text "" payload) ≡ some false
  unfolding read_lines
  pretty_payload-Settles payload = pretty-Settles payload "" refl true
