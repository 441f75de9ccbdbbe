-- ===== src/Durable/Codec/Torn.antt =====
-- Files whose last record is cut off, as a crash in the middle of a write leaves them.
use map_reduce_rpc.Prelude.{
  ℕ, zero, suc, ◌+◌, ◌-◌, ◌≤◌, ◌≡◌, ◌≢◌, refl, ap, ◌∙◌, sym, arith, List, [], ◌∷◌, ◌++◌, append-nil,
  append_assoc, length, take, drop, All, length-append, ◌⊎◌, inl, inr, length-drop,
}
use map_reduce_rpc.Durable.Types.{Content, IsContent}
use map_reduce_rpc.Durable.Codec.{
  build_log_content, Read, read_bytes, ◌>>=◌, read_number, read_bool, read_record,
  read_records_loop, read_records,
}
use map_reduce_rpc.Durable.Codec.RoundTrip.{read_record-append}

-- What a successful read returns does not depend on what is appended to the file.
record IsStable {A : Type 0} (read : List ℕ → Read A) : Type 0 where
  at :
      (file more : List ℕ) (a : A) (rest : List ℕ)
      → read file ≡ Read.got a rest
      → read (file ++ more) ≡ Read.got a (rest ++ more)

-- A successful read leaves a file that is not longer, by `n` bytes at least.
record Takes {A : Type 0} (n : ℕ) (read : List ℕ → Read A) : Type 0 where
  at :
      (file : List ℕ) (a : A) (rest : List ℕ)
      → read file ≡ Read.got a rest
      → length rest + n ≤ length file

Read-cases :
    {A : Type 0} (r : Read A)
    → ((a : A) × (rest : List ℕ) × (r ≡ Read.got a rest))
      ⊎ ((a : A) (rest : List ℕ) → r ≢ Read.got a rest)
Read-cases (Read.got a rest) = inl (a, rest, refl)
Read-cases Read.eof = inr (λ a rest e. cc)
Read-cases Read.unexpected_eof = inr (λ a rest e. cc)

pub got-bind :
    {A B : Type 0} (r : Read A) (f : A → List ℕ → Read B) (b : B) (rest : List ℕ)
    → (r >>= f) ≡ Read.got b rest
    → (a : A) × (file : List ℕ) × (r ≡ Read.got a file) × (f a file ≡ Read.got b rest)
got-bind (Read.got a file) f b rest e = (a, file, refl, e)
got-bind Read.eof f b rest e = cc
got-bind Read.unexpected_eof f b rest e = cc

IsStable-bind :
    {A B : Type 0} (read : List ℕ → Read A) (f : A → List ℕ → Read B)
    → IsStable read
    → ((a : A) → IsStable (f a))
    → IsStable (λ file. read file >>= f)
IsStable-bind read f h hf = record {
  at = λ file more b rest e.
      let (a, middle, first, second) = got-bind (read file) f b rest e in
      rw (h.at file more a middle first) ((hf a).at middle more b rest second);
}

Takes-bind :
    {A B : Type 0} (n m : ℕ) (read : List ℕ → Read A) (f : A → List ℕ → Read B)
    → Takes n read
    → ((a : A) → Takes m (f a))
    → Takes (n + m) (λ file. read file >>= f)
Takes-bind n m read f h hf = record {
  at = λ file b rest e.
      let (a, middle, first, second) = got-bind (read file) f b rest e in
      omega (arith, h.at file a middle first, (hf a).at middle b rest second);
}

take-append_le : (n : ℕ) (xs ys : List ℕ) → n ≤ length xs → take n (xs ++ ys) ≡ take n xs
take-append_le zero xs ys h = refl
take-append_le (suc n) [] ys h = absurd (omega arith)
take-append_le (suc n) (x ∷ xs) ys h = ap (◌∷◌ x) (take-append_le n xs ys (omega arith))

drop-append_le : (n : ℕ) (xs ys : List ℕ) → n ≤ length xs → drop n (xs ++ ys) ≡ drop n xs ++ ys
drop-append_le zero xs ys h = refl
drop-append_le (suc n) [] ys h = absurd (omega arith)
drop-append_le (suc n) (x ∷ xs) ys h = drop-append_le n xs ys (omega arith)

read_bytes-IsStable : (n : ℕ) → IsStable (read_bytes n)
unfolding read_bytes
read_bytes-IsStable n = record {
  at = λ file more a rest e.
      ground
        (arith, length-append file more, take-append_le n file more, drop-append_le n file more);
}

read_bytes-Takes : (n : ℕ) → Takes n (read_bytes n)
unfolding read_bytes
read_bytes-Takes n = record { at = λ file a rest e. ground (arith, length-drop n file) }

got-IsStable : {A : Type 0} (a : A) → IsStable (Read.got a)
got-IsStable a = record { at = λ file more b rest e. ground arith }

got-Takes : {A : Type 0} (a : A) → Takes 0 (Read.got a)
got-Takes a = record { at = λ file b rest e. ground arith }

read_number-IsStable : (n : ℕ) → IsStable (read_number n)
unfolding read_number
read_number-IsStable n =
    IsStable-bind (read_bytes n) _ (read_bytes-IsStable n) (λ bs. got-IsStable _)

read_number-Takes : (n : ℕ) → Takes (n + 0) (read_number n)
unfolding read_number
read_number-Takes n = Takes-bind n 0 (read_bytes n) _ (read_bytes-Takes n) (λ bs. got-Takes _)

read_bool-IsStable : IsStable read_bool
unfolding read_bool
read_bool-IsStable = IsStable-bind (read_number 1) _ (read_number-IsStable 1) (λ b. got-IsStable _)

read_record-IsStable : IsStable read_record
unfolding read_record
read_record-IsStable = IsStable-bind (read_number 8) _ (read_number-IsStable 8) λ handle_id.
    IsStable-bind (read_number 8) _ (read_number-IsStable 8) λ timestamp.
      IsStable-bind (read_number 4) _ (read_number-IsStable 4) λ data_length.
        IsStable-bind (read_bytes data_length) _ (read_bytes-IsStable data_length)
          λ bytes. IsStable-bind read_bool _ read_bool-IsStable λ eof. got-IsStable _

Takes-nothing : {A : Type 0} {n : ℕ} {read : List ℕ → Read A} → Takes n read → Takes 0 read
Takes-nothing h = record { at = λ file a rest e. omega (arith, h.at file a rest e) }

read_record-Takes : Takes 8 read_record
unfolding read_record
read_record-Takes = Takes-bind 8 0 (read_number 8) _ (read_number-Takes 8) λ handle_id.
    Takes-bind 0 0 (read_number 8) _ (Takes-nothing (read_number-Takes 8)) λ timestamp.
      Takes-bind 0 0 (read_number 4) _ (Takes-nothing (read_number-Takes 4)) λ data_length.
        Takes-bind 0 0 (read_bytes data_length) _ (Takes-nothing (read_bytes-Takes data_length))
          λ bytes. Takes-bind 0 0 read_bool _ (Takes-nothing read_bool-Takes) λ eof. got-Takes _
  where
    read_bool-Takes : Takes (1 + 0 + 0) read_bool
    read_bool-Takes =
        unfold read_bool in
        Takes-bind (1 + 0) 0 (read_number 1) _ (read_number-Takes 1) (λ b. got-Takes _)

-- The bytes of a list of records.
abbrev pub encode_all : List Content → List ℕ
encode_all [] = []
encode_all (c ∷ cs) = build_log_content c.id c ++ encode_all cs

-- A beginning of a record, possibly empty, that lacks at least one byte.
pub record IsTorn (front : List ℕ) : Type 0 where
  pub content : Content
  pub valid : IsContent content
  pub next : ℕ
  pub back : List ℕ
  pub cut : build_log_content content.id content ≡ front ++ next ∷ back

-- No record is read from it.
pub IsTorn-not_got :
    {front : List ℕ}
    → IsTorn front
    → (a : Content) (rest : List ℕ) → read_record front ≢ Read.got a rest
IsTorn-not_got {front} h a rest e =
    absurd (ground (arith, length-append rest (h.next ∷ h.back), both))
  where
    both : Read.got a (rest ++ h.next ∷ h.back) ≡ Read.got h.content []
    both =
        sym (read_record-IsStable.at front (h.next ∷ h.back) a rest e)
        ∙ ap read_record (sym h.cut ∙ sym (append-nil _))
        ∙ read_record-append h.content [] h.valid

pub length-encode_all :
    (cs : List Content) (fuel : ℕ)
    → All IsContent cs
    → length (encode_all cs) ≤ fuel
    → length cs ≤ fuel
length-encode_all [] fuel h enough = omega arith
length-encode_all (c ∷ cs) fuel (hc, hcs) enough =
    let long = read_record-Takes.at _ c (encode_all cs) (read_record-append c (encode_all cs) hc) in
    omega (arith, length-encode_all cs (fuel - 8) hcs (omega (arith, long)), long)

read_records_loop-torn :
    (fuel : ℕ) (front : List ℕ) → IsTorn front → read_records_loop fuel front ≡ []
unfolding read_records_loop
read_records_loop-torn zero front h = refl
read_records_loop-torn (suc fuel) front h = go (read_record front) refl
  where
    go : (r : Read Content) → read_record front ≡ r → read_records_loop (suc fuel) front ≡ []
    go (Read.got a rest) e = absurd (IsTorn-not_got h a rest e)
    go Read.eof e = rw (e, read_records_loop)
    go Read.unexpected_eof e = rw (e, read_records_loop)

read_records_loop-encode_all :
    (cs : List Content) (fuel : ℕ) (front : List ℕ)
    → All IsContent cs
    → length cs ≤ fuel
    → IsTorn front
    → read_records_loop fuel (encode_all cs ++ front) ≡ cs
unfolding read_records_loop
read_records_loop-encode_all [] fuel front h enough torn = read_records_loop-torn fuel front torn
read_records_loop-encode_all (c ∷ cs) zero front h enough torn = absurd (omega arith)
read_records_loop-encode_all (c ∷ cs) (suc fuel) front (hc, hcs) enough torn = rw (
  append_assoc (build_log_content c.id c),
  read_record-append c (encode_all cs ++ front) hc,
  read_records_loop,
  read_records_loop-encode_all cs fuel front hcs (omega arith) torn,
)

-- The reading loop of `Replay` delivers exactly the complete records of a file, in order, and drops
-- a last record that is cut off anywhere.
pub read_records-encode_all :
    (cs : List Content) (front : List ℕ)
    → All IsContent cs
    → IsTorn front
    → read_records (encode_all cs ++ front) ≡ cs
unfolding read_records
read_records-encode_all cs front h torn =
    read_records_loop-encode_all cs _ front h
      (length-encode_all cs _ h (omega (arith, length-append (encode_all cs) front))) torn
