-- ===== src/Cleanup/Like.antt =====
-- The operator LIKE of the database, as the filters of
-- backend/src/newsintel/maintenance/cleanup_old_jobs.py use it: `%` stands for any text, `_` for any
-- character, and a backslash takes the next character for itself. A pattern of those filters never
-- ends in a lone backslash, which the database refuses.
use newzyfy.Prelude.{ℕ, String, Bool, true, false, ◌&&◌, ◌||◌, List, [], ◌∷◌, ◌==◌, if◌then◌else◌}
use newzyfy.Text.{codes}

abbrev is_end : List ℕ → Bool
is_end [] = true
is_end (c ∷ s) = false

-- Some rest of the text passes the test.
abbrev some_suffix : (List ℕ → Bool) → List ℕ → Bool
some_suffix f [] = f []
some_suffix f (c ∷ s) = f (c ∷ s) || some_suffix f s

abbrev after_any : (List ℕ → Bool) → List ℕ → Bool
after_any f [] = false
after_any f (c ∷ s) = f s

abbrev after_code : ℕ → (List ℕ → Bool) → List ℕ → Bool
after_code k f [] = false
after_code k f (c ∷ s) = c == k && f s

-- The flag says whether a backslash has just been read.
unfoldable pub like_codes : List ℕ → Bool → List ℕ → Bool
like_codes [] escaped = is_end
like_codes (k ∷ pattern) true = after_code k (like_codes pattern false)
like_codes (k ∷ pattern) false =
    let plain = like_codes pattern false in
    let next = like_codes pattern true in
    if k == 37
    then some_suffix plain
    else if k == 95
    then after_any plain
    else if k == 92
    then next
    else after_code k plain

unfoldable pub like : String → String → Bool
like pattern text = like_codes (codes pattern) false (codes text)
