-- ===== src/Master/Submit/Combine.antt =====
-- The combined output of a job.
use map_reduce_rpc.Prelude.{
  ℕ, ◌≡◌, refl, ap, ◌∙◌, sym, arith, true, false, List, [], ◌∷◌, ◌++◌, append_assoc, append-nil,
  if◌then◌else◌, Bool-cases, inl, inr,
}
use map_reduce_rpc.Prelude.Words.{slt64}
use map_reduce_rpc.Prelude.Trim.{ends_with}
use map_reduce_rpc.Durable.Types.{Handle}
use map_reduce_rpc.Rpc.{MapReduceResultRequest}
use map_reduce_rpc.Master.Submit.{insert_chunk, sort_chunks, combine_step, combine_loop, collate}

-- An output that ends its last line.
abbrev pub whole_lines : List ℕ → List ℕ
whole_lines output = if ends_with 10 output then output else output ++ 10 ∷ []

unfoldable pub all_lines : List MapReduceResultRequest → List ℕ
all_lines [] = []
all_lines (c ∷ chunks) = whole_lines c.output_data ++ all_lines chunks

ends_with-append : (e c : ℕ) (xs ys : List ℕ) → ends_with e (xs ++ c ∷ ys) ≡ ends_with e (c ∷ ys)
unfolding ends_with
ends_with-append e c [] ys = refl
ends_with-append e c (x ∷ []) ys = refl
ends_with-append e c (x ∷ y ∷ xs) ys = ends_with-append e c (y ∷ xs) ys

ends_with-whole_lines :
    (combined output : List ℕ) → ends_with 10 (combined ++ whole_lines output) ≡ true
unfolding ends_with
ends_with-whole_lines combined [] = ends_with-append 10 10 combined []
ends_with-whole_lines combined (c ∷ output) = elim (Bool-cases (ends_with 10 (c ∷ output))) [
  | inl ended ↦ rw ended (ends_with-append 10 c combined output ∙ ended)
  | inr open_line ↦
      rw open_line (
        ends_with-append 10 c combined (output ++ 10 ∷ []) ∙ ends_with-append 10 10 (c ∷ output) [])
]

combine_step-whole_lines :
    (combined output : List ℕ)
    → ends_with 10 combined ≡ true
    → combine_step false combined output ≡ combined ++ whole_lines output
unfolding combine_step
combine_step-whole_lines combined output ended =
    ground (arith, append_assoc combined output (10 ∷ []))

combine_loop-all_lines :
    (chunks : List MapReduceResultRequest) (combined : List ℕ)
    → ends_with 10 combined ≡ true
    → combine_loop false combined chunks ≡ combined ++ all_lines chunks
unfolding combine_loop all_lines
combine_loop-all_lines [] combined ended = sym (append-nil combined)
combine_loop-all_lines (c ∷ chunks) combined ended =
    ap (λ (s : List ℕ). combine_loop false s chunks)
      (combine_step-whole_lines combined c.output_data ended)
    ∙ combine_loop-all_lines chunks (combined ++ whole_lines c.output_data)
        (ends_with-whole_lines combined c.output_data)
    ∙ append_assoc combined (whole_lines c.output_data) (all_lines chunks)

-- No later chunk has a smaller index.
abbrev pub NoneBefore : MapReduceResultRequest → List MapReduceResultRequest → Type 0
NoneBefore c [] = Unit
NoneBefore c (d ∷ chunks) = (slt64 d.chunk_index c.chunk_index ≡ false) × NoneBefore c chunks

abbrev pub AreInOrder : List MapReduceResultRequest → Type 0
AreInOrder [] = Unit
AreInOrder (c ∷ chunks) = NoneBefore c chunks × AreInOrder chunks

NoneBefore-weaken :
    (c d : MapReduceResultRequest) (chunks : List MapReduceResultRequest)
    → slt64 d.chunk_index c.chunk_index ≡ false
    → NoneBefore d chunks
    → NoneBefore c chunks
NoneBefore-weaken c d [] e h = tt
NoneBefore-weaken c d (x ∷ chunks) e (here, rest) =
    (ground arith, NoneBefore-weaken c d chunks e rest)

NoneBefore-insert :
    (c d : MapReduceResultRequest) (chunks : List MapReduceResultRequest)
    → slt64 d.chunk_index c.chunk_index ≡ false
    → NoneBefore c chunks
    → NoneBefore c (insert_chunk d chunks)
unfolding insert_chunk
NoneBefore-insert c d [] e h = (e, tt)
NoneBefore-insert c d (x ∷ chunks) e (here, rest) =
    elim (Bool-cases (slt64 x.chunk_index d.chunk_index)) [
      | inl less ↦ rw less (here, NoneBefore-insert c d chunks e rest)
      | inr not_less ↦ rw not_less (e, (here, rest))
    ]

insert_chunk-AreInOrder :
    (c : MapReduceResultRequest) (chunks : List MapReduceResultRequest)
    → AreInOrder chunks
    → AreInOrder (insert_chunk c chunks)
unfolding insert_chunk
insert_chunk-AreInOrder c [] h = (tt, tt)
insert_chunk-AreInOrder c (d ∷ chunks) (first, rest) =
    elim (Bool-cases (slt64 d.chunk_index c.chunk_index)) [
      | inl less ↦
          rw less (
            NoneBefore-insert d c chunks (ground arith) first,
            insert_chunk-AreInOrder c chunks rest,
          )
      | inr not_less ↦
          rw not_less ((not_less, NoneBefore-weaken c d chunks not_less first), (first, rest))
    ]

sort_chunks-AreInOrder : (chunks : List MapReduceResultRequest) → AreInOrder (sort_chunks chunks)
unfolding sort_chunks
sort_chunks-AreInOrder [] = tt
sort_chunks-AreInOrder (c ∷ chunks) =
    insert_chunk-AreInOrder c (sort_chunks chunks) (sort_chunks-AreInOrder chunks)

-- The combined output of a job is the outputs of its chunks in the order of their indices, each with its
-- last line ended; the test for a missing line break in front of a chunk never finds one.
pub collate_lem :
    (handle : Handle) (chunks : List MapReduceResultRequest)
    → AreInOrder (collate handle chunks).chunks
      × ((collate handle chunks).combined_output ≡ all_lines (collate handle chunks).chunks)
unfolding collate
collate_lem handle chunks = (sort_chunks-AreInOrder chunks, combined (sort_chunks chunks))
  where
    combined : (cs : List MapReduceResultRequest) → combine_loop true [] cs ≡ all_lines cs
    combined [] = unfold combine_loop all_lines in refl
    combined (c ∷ cs) =
        unfold combine_loop all_lines combine_step in
        combine_loop-all_lines cs (whole_lines c.output_data)
          (ends_with-whole_lines [] c.output_data)
