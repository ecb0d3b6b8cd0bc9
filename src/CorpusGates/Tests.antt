-- ===== src/CorpusGates/Tests.antt =====
-- corpus_gates.py: three rows, of which one may be summarized.
use model_eval.Prelude.{
  ◌+◌, ◌≡◌, Option, some, String, List, [], ◌∷◌, string_key, keep, length, total, tallied, count_of,
}
use model_eval.Rows.{Row, blank}
use model_eval.CorpusGates.{partition, summarizable}
use model_eval.CorpusGates.Partition.{partition_lem, excluded_for}

abbrev rows : List Row
rows =
    record blank { exit_reason = some "ok" }
    ∷ record blank { exit_reason = some "timeout"; tokens_in_status = some "measured" }
    ∷ blank
    ∷ []

abbrev reason : Row → Option String
reason row = row.exit_reason

partition_lem_example :
    let (kept, excluded) = partition summarizable reason rows in
    (kept ≡ keep summarizable rows)
    × (length kept + total excluded ≡ length rows)
    × ((key : String) → tallied key excluded ≡ count_of (excluded_for summarizable reason key) rows)
partition_lem_example = partition_lem summarizable reason rows
