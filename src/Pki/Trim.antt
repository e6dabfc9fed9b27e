-- ===== src/Pki/Trim.antt =====
-- `trim` of common/pki_util.hpp and of ca/revocation_db.cpp: the text from the first character that is
-- not blank to the last. The two differ in the characters that are blank.
use tee_anchor.Prelude.{ℕ, Bool, ◌||◌, ◌&&◌, [], ◌∷◌, ◌==◌, Bytes, is_empty, if◌then◌else◌}

unfoldable pub drop_front : (ℕ → Bool) → Bytes → Bytes
drop_front blank [] = []
drop_front blank (c ∷ s) = if blank c then drop_front blank s else c ∷ s

unfoldable pub drop_back : (ℕ → Bool) → Bytes → Bytes
drop_back blank [] = []
drop_back blank (c ∷ s) =
    let rest = drop_back blank s in if is_empty rest && blank c then [] else c ∷ rest

unfoldable pub trim : (ℕ → Bool) → Bytes → Bytes
unfolding drop_front drop_back
trim blank s = drop_back blank (drop_front blank s)

-- " \t"
unfoldable pub is_space : ℕ → Bool
is_space c = c == b' ' || c == 9

-- " \t\r\n"
unfoldable pub is_line_space : ℕ → Bool
is_line_space c = c == b' ' || c == 9 || c == 13 || c == 10
