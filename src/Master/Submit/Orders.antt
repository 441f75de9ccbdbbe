-- ===== src/Master/Submit/Orders.antt =====
-- The collated result does not depend on the order of the results.
use map_reduce_rpc.Prelude.{
  ◌^◌, ◌<◌, ◌≡◌, refl, sym, ap, ◌∙◌, arith, true, false, not, List, [], ◌∷◌, ◌++◌, suc, length, eqb,
  All, Reorders, Bool-cases, inl, inr, if-true, if-false,
}
use map_reduce_rpc.Prelude.Words.{slt64}
use map_reduce_rpc.Durable.Types.{Handle}
use map_reduce_rpc.Rpc.{MapReduceResultRequest}
use map_reduce_rpc.Master.Submit.{insert_chunk, sort_chunks, collate}

-- The index of a chunk is an `int` that is not negative.
abbrev pub IsIndex : MapReduceResultRequest → Type 0
IsIndex c = c.chunk_index < 2 ^ 63

abbrev pub Differ : MapReduceResultRequest → MapReduceResultRequest → Type 0
Differ c d = eqb c.chunk_index d.chunk_index ≡ false

-- No two results are of the same chunk.
abbrev pub AreApart : List MapReduceResultRequest → Type 0
AreApart [] = Unit
AreApart (c ∷ cs) = All (Differ c) cs × AreApart cs

exclusive :
    (c d : MapReduceResultRequest)
    → IsIndex c
    → IsIndex d
    → Differ c d
    → slt64 c.chunk_index d.chunk_index ≡ not (slt64 d.chunk_index c.chunk_index)
exclusive c d small small' differ = ground (arith, small, small', differ)

-- A chunk goes behind one with a smaller index, and before any other.
insert_chunk-behind :
    (c x : MapReduceResultRequest) (chunks : List MapReduceResultRequest)
    → slt64 x.chunk_index c.chunk_index ≡ true
    → insert_chunk c (x ∷ chunks) ≡ x ∷ insert_chunk c chunks
unfolding insert_chunk
insert_chunk-behind c x chunks less = if-true less _

insert_chunk-before :
    (c x : MapReduceResultRequest) (chunks : List MapReduceResultRequest)
    → slt64 x.chunk_index c.chunk_index ≡ false
    → insert_chunk c (x ∷ chunks) ≡ c ∷ x ∷ chunks
unfolding insert_chunk
insert_chunk-before c x chunks more = if-false more _

-- Two chunks with `x` between them, and with `x` behind both.
insert_around :
    (c d x : MapReduceResultRequest) (chunks : List MapReduceResultRequest)
    → slt64 x.chunk_index c.chunk_index ≡ true
    → slt64 x.chunk_index d.chunk_index ≡ false
    → slt64 d.chunk_index c.chunk_index ≡ true
    → insert_chunk c (insert_chunk d (x ∷ chunks)) ≡ insert_chunk d (insert_chunk c (x ∷ chunks))
insert_around c d x chunks under_c over_d less =
    ap (insert_chunk c) (insert_chunk-before d x chunks over_d)
    ∙ insert_chunk-behind c d (x ∷ chunks) less
    ∙ ap (◌∷◌ d) (insert_chunk-behind c x chunks under_c)
    ∙ sym (insert_chunk-before d x (insert_chunk c chunks) over_d)
    ∙ sym (ap (insert_chunk d) (insert_chunk-behind c x chunks under_c))

insert_both_before :
    (c d x : MapReduceResultRequest) (chunks : List MapReduceResultRequest)
    → slt64 x.chunk_index c.chunk_index ≡ false
    → slt64 x.chunk_index d.chunk_index ≡ false
    → slt64 d.chunk_index c.chunk_index ≡ true
    → slt64 c.chunk_index d.chunk_index ≡ false
    → insert_chunk c (insert_chunk d (x ∷ chunks)) ≡ insert_chunk d (insert_chunk c (x ∷ chunks))
insert_both_before c d x chunks over_c over_d less not_less =
    ap (insert_chunk c) (insert_chunk-before d x chunks over_d)
    ∙ insert_chunk-behind c d (x ∷ chunks) less
    ∙ ap (◌∷◌ d) (insert_chunk-before c x chunks over_c)
    ∙ sym (insert_chunk-before d c (x ∷ chunks) not_less)
    ∙ sym (ap (insert_chunk d) (insert_chunk-before c x chunks over_c))

insert_chunk-insert_chunk :
    (c d : MapReduceResultRequest) (chunks : List MapReduceResultRequest)
    → slt64 c.chunk_index d.chunk_index ≡ not (slt64 d.chunk_index c.chunk_index)
    → insert_chunk c (insert_chunk d chunks) ≡ insert_chunk d (insert_chunk c chunks)
unfolding insert_chunk
insert_chunk-insert_chunk c d [] either = elim (Bool-cases (slt64 d.chunk_index c.chunk_index)) [
  | inl less ↦ rw (either, less) refl
  | inr more ↦ rw (either, more) refl
]
insert_chunk-insert_chunk c d (x ∷ chunks) either =
    elim (Bool-cases (slt64 x.chunk_index c.chunk_index)) [
      | inl under_c ↦ elim (Bool-cases (slt64 x.chunk_index d.chunk_index)) [
        | inl under_d ↦
            ap (insert_chunk c) (insert_chunk-behind d x chunks under_d)
            ∙ insert_chunk-behind c x (insert_chunk d chunks) under_c
            ∙ ap (◌∷◌ x) (insert_chunk-insert_chunk c d chunks either)
            ∙ sym (insert_chunk-behind d x (insert_chunk c chunks) under_d)
            ∙ sym (ap (insert_chunk d) (insert_chunk-behind c x chunks under_c))
        | inr over_d ↦ insert_around c d x chunks under_c over_d (ground (arith, under_c, over_d))
      ]
      | inr over_c ↦ elim (Bool-cases (slt64 x.chunk_index d.chunk_index)) [
        | inl under_d ↦
            sym (insert_around d c x chunks under_d over_c (ground (arith, under_d, over_c)))
        | inr over_d ↦ elim (Bool-cases (slt64 d.chunk_index c.chunk_index)) [
          | inl less ↦
              insert_both_before c d x chunks over_c over_d less (ground (arith, less, either))
          | inr more ↦
              sym
                (insert_both_before d c x chunks over_d over_c (ground (arith, more, either)) more)
        ]
      ]
    ]

All-between :
    (P : MapReduceResultRequest → Type 0) (c : MapReduceResultRequest)
    (before after : List MapReduceResultRequest)
    → P c
    → All P (before ++ after)
    → All P (before ++ c ∷ after)
All-between P c [] after here rest = (here, rest)
All-between P c (b ∷ before) after here (first, rest) =
    (first, All-between P c before after here rest)

pub Reorders-All :
    (P : MapReduceResultRequest → Type 0) (cs ds : List MapReduceResultRequest)
    → Reorders cs ds
    → All P cs
    → All P ds
Reorders-All P [] ds none_left h = rw none_left tt
Reorders-All P (c ∷ cs) ds (before, after, e, rest) (here, there) =
    rw e (All-between P c before after here (Reorders-All P cs (before ++ after) rest there))

apart_between :
    (c : MapReduceResultRequest) (before after : List MapReduceResultRequest)
    → All (Differ c) (before ++ after)
    → AreApart (before ++ after)
    → AreApart (before ++ c ∷ after)
apart_between c [] after differ apart = (differ, apart)
apart_between c (b ∷ before) after (first, differ) (own, apart) = (
  All-between (Differ b) c before after (ground (arith, first)) own,
  apart_between c before after differ apart,
)

pub Reorders-AreApart :
    (cs ds : List MapReduceResultRequest) → Reorders cs ds → AreApart cs → AreApart ds
Reorders-AreApart [] ds none_left h = rw none_left tt
Reorders-AreApart (c ∷ cs) ds (before, after, e, rest) (differ, apart) = rw e (
    apart_between c before after (Reorders-All (Differ c) cs (before ++ after) rest differ)
      (Reorders-AreApart cs (before ++ after) rest apart))

sort_chunks-between :
    (c : MapReduceResultRequest) (before after : List MapReduceResultRequest)
    → IsIndex c
    → All IsIndex (before ++ after)
    → All (Differ c) (before ++ after)
    → sort_chunks (before ++ c ∷ after) ≡ insert_chunk c (sort_chunks (before ++ after))
unfolding sort_chunks
sort_chunks-between c [] after small smalls differ = refl
sort_chunks-between c (b ∷ before) after small (here, smalls) (first, differ) =
    ap (insert_chunk b) (sort_chunks-between c before after small smalls differ)
    ∙ insert_chunk-insert_chunk b c (sort_chunks (before ++ after))
        (exclusive b c here small (ground (arith, first)))

sort_chunks-Reorders :
    (cs ds : List MapReduceResultRequest)
    → Reorders cs ds
    → All IsIndex cs
    → AreApart cs
    → sort_chunks ds ≡ sort_chunks cs
unfolding sort_chunks
sort_chunks-Reorders [] ds none_left small apart = rw none_left refl
sort_chunks-Reorders (c ∷ cs) ds (before, after, e, rest) (here, small) (differ, apart) =
    ap sort_chunks e
    ∙ sort_chunks-between c before after here (Reorders-All IsIndex cs (before ++ after) rest small)
        (Reorders-All (Differ c) cs (before ++ after) rest differ)
    ∙ ap (insert_chunk c) (sort_chunks-Reorders cs (before ++ after) rest small apart)

length-between :
    (c : MapReduceResultRequest) (before after : List MapReduceResultRequest)
    → length (before ++ c ∷ after) ≡ suc (length (before ++ after))
length-between c [] after = refl
length-between c (b ∷ before) after = ap suc (length-between c before after)

pub length-Reorders : (cs ds : List MapReduceResultRequest) → Reorders cs ds → length ds ≡ length cs
length-Reorders [] ds none_left = rw none_left refl
length-Reorders (c ∷ cs) ds (before, after, e, rest) =
    ap length e ∙ length-between c before after ∙ ap suc (length-Reorders cs (before ++ after) rest)

pub collate-Reorders :
    (handle : Handle) (cs ds : List MapReduceResultRequest)
    → Reorders cs ds
    → All IsIndex cs
    → AreApart cs
    → collate handle ds ≡ collate handle cs
unfolding collate
collate-Reorders handle cs ds other small apart =
    rw (length-Reorders cs ds other, sort_chunks-Reorders cs ds other small apart) refl
