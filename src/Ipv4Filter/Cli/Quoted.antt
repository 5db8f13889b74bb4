-- ===== src/Ipv4Filter/Cli/Quoted.antt =====
-- Arguments written in quotes, and the line that they make.
use Prim.Native.Char.{Char}
use Prim.Native.String
use Prim.Native.String.{◌++◌ as append}
use text.Mathlib.TextLemmas.{append-nil, append_assoc}
use two_services.Base.{
  ◌≡◌, ◌≢◌, sym, ap, ◌∙◌, inl, inr, String, Bool, true, false, not, ◌&&◌, List, [], ◌∷◌, ◌++◌, All,
  ◌==◌, eq_iff, arith, and-eq_true, Bool-cases,
}
use mathlib.Core.List
use two_services.Ipv4Filter.Cli.{
  Splitting, read_char, is_space, is_quote, end_arg, read_chars, split_line,
}

-- A text without quotes.
abbrev pub has_no_quote : String → Bool
has_no_quote String.[] = true
has_no_quote (String.◌∷◌ c s) = not (is_quote c) && has_no_quote s

-- Each argument in quotes, with a space behind it.
unfoldable pub quoted : List String → String
quoted [] = ""
quoted (arg ∷ args) = append "\"" (append arg (append "\" " (quoted args)))

abbrev within : List String → String → Splitting
within args curr = record { args = args; curr_arg = curr; in_quotes = true }

append-one : (c : Char) (s : String) → append (String.◌∷◌ c "") s ≡ String.◌∷◌ c s
append-one c s = String.append.cons c "" s ∙ ap (String.◌∷◌ c) (String.append.nil s)

read_char-within :
    (c : Char) (curr : String) (args : List String)
    → is_quote c ≡ false
    → read_char c (within args curr) ≡ within args (append curr (String.◌∷◌ c ""))
read_char-within c curr args h = elim (Bool-cases (is_space c)) [
  | inl e ↦ rw (h, e)
  | inr e ↦ rw (h, e)
]

read_chars-within :
    (arg rest curr : String) (args : List String)
    → has_no_quote arg ≡ true
    → read_chars (append arg rest) (within args curr)
      ≡ read_chars rest (within args (append curr arg))
unfolding read_chars
read_chars-within String.[] rest curr args h = rw (String.append.nil rest, append-nil curr)
read_chars-within (String.◌∷◌ c arg) rest curr args h =
    let (no_quote, others) = and-eq_true (not (is_quote c)) (has_no_quote arg) h in
    let plain : is_quote c ≡ false = ground (arith, no_quote) in
    let joined : append (append curr (String.◌∷◌ c "")) arg ≡ append curr (String.◌∷◌ c arg) =
      append_assoc curr (String.◌∷◌ c "") arg ∙ ap (append curr) (append-one c arg) in
    rw (String.append.cons c arg rest) (
      ap (read_chars (append arg rest)) (read_char-within c curr args plain)
      ∙ read_chars-within arg rest (append curr (String.◌∷◌ c "")) args others
      ∙ ap (λ (t : String). read_chars rest (within args t)) joined)

read_chars-quoted :
    (list args : List String)
    → All (λ arg. (arg ≢ "") × (has_no_quote arg ≡ true)) list
    → read_chars (quoted list) (record { args = args; curr_arg = ""; in_quotes = false })
      ≡ record { args = args ++ list; curr_arg = ""; in_quotes = false }
unfolding read_chars quoted
read_chars-quoted [] args h =
    ap (λ l. record { args = l; curr_arg = ""; in_quotes = false }) (sym (List.append-nil args))
read_chars-quoted (arg ∷ list) args ((not_empty, plain), h) =
    let tail = quoted list in
    let kept : (arg == "") ≡ false = ground (arith, eq_iff arg "") in
    let closing : append "\" " tail ≡ String.◌∷◌ "\"" (String.◌∷◌ " " tail) =
      String.append.cons "\"" " " tail ∙ ap (String.◌∷◌ "\"") (append-one " " tail) in
    ap (λ (t : String). read_chars t (record { args = args; curr_arg = ""; in_quotes = false }))
      (append-one "\"" (append arg (append "\" " tail)))
    ∙ read_chars-within arg (append "\" " tail) "" args plain
    ∙ ap (λ (t : String). read_chars t (within args (append "" arg))) closing
    ∙ ap
        (λ (t : String).
          read_chars tail (end_arg (record { args = args; curr_arg = t; in_quotes = false })))
        (String.append.nil arg)
    ∙ rw kept (
        read_chars-quoted list (args ++ arg ∷ []) h
        ∙ ap (λ l. record { args = l; curr_arg = ""; in_quotes = false })
            (List.append_assoc args (arg ∷ []) list))

-- Arguments that are not empty and have no quote in them, each put in quotes, are the arguments that
-- the line is split into, spaces in them included.
pub split_line-quoted :
    (list : List String)
    → All (λ arg. (arg ≢ "") × (has_no_quote arg ≡ true)) list
    → split_line (quoted list) ≡ list
unfolding split_line
split_line-quoted list h = ap (λ s. (end_arg s).args) (read_chars-quoted list [] h)
