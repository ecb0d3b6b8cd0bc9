-- ===== src/Sweep/Invoke/Board.antt =====
-- run.py, `main`, from afar: a board of the runs that are done. It knows no results file: it is the set of
-- the done ids, and an attempt at a run that is not done may finish it.
use model_eval.Prelude.{
  ◌≡◌, refl, String, Bool, false, ◌&&◌, ◌||◌, List, [], ◌∷◌, ◌++◌, string_key, ◌=?◌,
}

abbrev pub Board : Type 0
Board = String → Bool

-- The id of an attempted run, and whether the attempt finished it.
abbrev pub Attempt : Type 0
Attempt = String × Bool

abbrev pub attempt : Attempt → Board → Board
attempt (id, finished) board other = board other || (finished && id =? other)

unfoldable pub attempt_all : List Attempt → Board → Board
attempt_all [] board = board
attempt_all (a ∷ attempts) board = attempt_all attempts (attempt a board)

-- Only runs that are not done are attempted.
abbrev pub Allowed : Board → List Attempt → Type 0
Allowed board [] = Unit
Allowed board (a ∷ attempts) = (board a.0 ≡ false) × Allowed (attempt a board) attempts

pub attempt_all-append :
    (xs ys : List Attempt) (board : Board)
    → attempt_all (xs ++ ys) board ≡ attempt_all ys (attempt_all xs board)
unfolding attempt_all
attempt_all-append [] ys board = refl
attempt_all-append (x ∷ xs) ys board = attempt_all-append xs ys (attempt x board)

pub Allowed-append :
    (board : Board) (xs ys : List Attempt)
    → Allowed board xs
    → Allowed (attempt_all xs board) ys
    → Allowed board (xs ++ ys)
unfolding attempt_all
Allowed-append board [] ys h k = k
Allowed-append board (x ∷ xs) ys (p, h) k = (p, Allowed-append (attempt x board) xs ys h k)
