-- ===== src/Agents/Patterns.antt =====
-- The regular expressions of src/backend/app/agents/evaluator.py, and their matching on ASCII texts.
use Prim.Native.Char.{code}
use cpfbuddies.Prelude.{String, Bool, true, false, ◌||◌, List, [], ◌∷◌, ◌++◌, eqb, if◌then◌else◌}
use cpfbuddies.Prelude.Text.{lower}
use cpfbuddies.Prelude.Integers.{is_space}

-- The expressions that the patterns are made of: a text, `\s+`, one after the other, `(…)?`, and `(…|…)`
pub data Regex : Type 0 where
  text : String → Regex
  spaces : Regex
  seq : Regex → Regex → Regex
  maybe : Regex → Regex
  either : Regex → Regex → Regex

-- What is left of a text behind another, if it begins with that one
behind : String → String → List String
behind String.[] s = s ∷ []
behind (String.◌∷◌ c t) String.[] = []
behind (String.◌∷◌ c t) (String.◌∷◌ d s) =
    let rest = behind t s in if eqb (code c) (code d) then rest else []

-- What is left behind one or more spaces
behind_spaces : String → List String
behind_spaces String.[] = []
behind_spaces (String.◌∷◌ c s) =
    let rest = behind_spaces s in if is_space (code c) then s ∷ rest else []

-- Each of several starts, continued
all_behind : (String → List String) → List String → List String
all_behind f [] = []
all_behind f (s ∷ ss) = f s ++ all_behind f ss

-- All that may be left of a text behind a match at its start
matches : Regex → String → List String
unfolding behind behind_spaces all_behind
matches (text t) s = behind t s
matches spaces s = behind_spaces s
matches (seq r q) s = all_behind (matches q) (matches r s)
matches (maybe r) s = matches r s ++ (s ∷ [])
matches (either r q) s = matches r s ++ matches q s

abbrev is_nonempty : List String → Bool
is_nonempty [] = false
is_nonempty (s ∷ ss) = true

-- `pattern.search(text)`, on a text in lower case
found_in : Regex → String → Bool
unfolding matches
found_in r String.[] = is_nonempty (matches r "")
found_in r (String.◌∷◌ c s) = is_nonempty (matches r (String.◌∷◌ c s)) || found_in r s

abbrev word : String → Regex → Regex
word t r = Regex.seq (text t) r

abbrev gap : Regex → Regex
gap r = Regex.seq spaces r

-- `_INJECTION_PATTERNS`
abbrev injection_patterns : List Regex
injection_patterns =
    word "ignore" (
      gap (
        Regex.seq (maybe (word "all" spaces))
          (word "previous" (gap (word "instruction" (maybe (text "s")))))))
    ∷ word "override" (
        gap (
          Regex.seq (maybe (word "the" spaces)) (
            Regex.seq
              (maybe
                (word "user" (Regex.seq (maybe (text "'")) (Regex.seq (maybe (text "s")) spaces))))
              (either (text "budget") (either (text "limit") (text "mandate"))))))
    ∷ Regex.seq (either (text "system") (text "developer"))
        (gap (either (text "message") (text "prompt")))
    ∷ word "conceal"
        (gap (Regex.seq (either (text "this") (text "the")) (gap (text "instruction"))))
    ∷ word "do" (
        gap (
          word "not" (
            gap (
              Regex.seq (either (text "tell") (text "inform"))
                (gap (word "the" (gap (text "user"))))))))
    ∷ []

any_found : List Regex → String → Bool
unfolding found_in
any_found [] s = false
any_found (r ∷ rs) s = found_in r s || any_found rs s

-- `any(pattern.search(text) for pattern in _INJECTION_PATTERNS)`, under `re.IGNORECASE`
unfoldable pub is_injection : String → Bool
unfolding any_found
is_injection s = any_found injection_patterns (lower s)
