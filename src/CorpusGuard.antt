-- ===== src/CorpusGuard.antt =====
-- runner/corpus_guard.py: the refusal to write into the live corpus. The file system is a record of what
-- `os` and `os.path` answer; `samefile` gives `none` on OSError and `commonpath` on ValueError. The two
-- climbing loops take fuel; `none` is a loop that the fuel did not see end.
pub mod Inside
mod Tests
use model_eval.Prelude.{
  ℕ, zero, suc, String, Bool, true, false, ◌&&◌, Option, none, some, List, [], ◌∷◌, string_key,
  ◌=?◌, if◌then◌else◌,
}

pub record FileSystem : Type 0 where
  pub exists : String → Bool
  pub samefile : String → String → Option Bool
  pub dirname : String → String
  pub abspath : String → String
  pub realpath : String → String
  pub normcase : String → String
  pub commonpath : String → String → Option String

-- A test whose exception counts as no.
abbrev pub or_no : Option Bool → Bool
or_no none = false
or_no (some b) = b

-- One pair of `live_pairs`, with its label.
pub record LivePair : Type 0 where
  pub candidate : Option String
  pub live_path : String
  pub label : String

module _ (fs : FileSystem) where
  abbrev pub norm : String → String
  norm path = fs.normcase (fs.realpath path)

  unfoldable pub is_live_path : String → String → Bool
  is_live_path candidate live_path =
      if norm candidate =? norm live_path
      then true
      else if fs.exists candidate && fs.exists live_path
      then or_no (fs.samefile candidate live_path)
      else false

  unfoldable pub nearest_existing_ancestor : ℕ → String → Option String
  nearest_existing_ancestor zero cur = none
  nearest_existing_ancestor (suc fuel) cur =
      let parent = fs.dirname cur in
      let up = nearest_existing_ancestor fuel parent in
      if fs.exists cur then some cur else if parent =? cur then some cur else up

  -- The loop of `_walk_to_root_for_match`.
  unfoldable pub climb : ℕ → String → String → Option Bool
  climb zero cur container = none
  climb (suc fuel) cur container =
      let parent = fs.dirname cur in
      let up = climb fuel parent container in
      if or_no (fs.samefile cur container)
      then some true
      else if parent =? cur
      then some false
      else up

  unfoldable pub walk_to_root_for_match : ℕ → String → String → Option Bool
  unfolding nearest_existing_ancestor climb
  walk_to_root_for_match fuel start container = elim (nearest_existing_ancestor fuel start) [
    | none ↦ none
    | some cur ↦ climb fuel cur container
  ]

  -- `a or b` of two loops: the second runs where the first says no.
  abbrev pub or_else_walk : Option Bool → Option Bool → Option Bool
  or_else_walk none b = none
  or_else_walk (some true) b = some true
  or_else_walk (some false) b = b

  unfoldable pub case_insensitive_ancestor_match : ℕ → String → String → Option Bool
  unfolding walk_to_root_for_match
  case_insensitive_ancestor_match fuel candidate container =
      if fs.exists container
      then or_else_walk (walk_to_root_for_match fuel (fs.abspath candidate) container)
          (walk_to_root_for_match fuel (fs.realpath candidate) container)
      else some false

  abbrev pub holds_common : Option String → String → Bool
  holds_common none container = false
  holds_common (some common) container = common =? container

  unfoldable pub is_inside_or_same : ℕ → String → String → Option Bool
  unfolding case_insensitive_ancestor_match
  is_inside_or_same fuel candidate container =
      let cand = norm candidate in
      let cont = norm container in
      if cand =? cont
      then some true
      else if holds_common (fs.commonpath cand cont) cont
      then some true
      else case_insensitive_ancestor_match fuel candidate container

  -- The refusal with the two resolved paths, within the option of a loop that ended.
  unfoldable pub refuse_scratch_inside_results :
      ℕ → String → String → Option (Option (String × String))
  unfolding is_inside_or_same
  refuse_scratch_inside_results fuel scratch results_dir =
      elim (is_inside_or_same fuel scratch results_dir) [
        | none ↦ none
        | some inside ↦
            if inside then some (some (fs.realpath scratch, fs.realpath results_dir)) else some none
      ]

  abbrev pub collides : LivePair → Bool
  collides p = elim p.candidate [
    | none ↦ false
    | some candidate ↦ if candidate =? "" then false else is_live_path candidate p.live_path
  ]

  -- The label and the live path that the refusal names: those of the first pair that collides.
  unfoldable pub refusal_message : List LivePair → Option (String × String)
  unfolding is_live_path
  refusal_message [] = none
  refusal_message (p ∷ pairs) =
      if collides p then some (p.label, p.live_path) else refusal_message pairs
