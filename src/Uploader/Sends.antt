-- ===== src/Uploader/Sends.antt =====
-- What an upload puts into the coordinator's log.
use map_reduce_rpc.Prelude.{
  ℕ, suc, ◌+◌, ◌^◌, ◌≤◌, ◌<◌, ◌≡◌, refl, ap, ◌∙◌, arith, Bool, true, false, Option, none, some,
  List, [], ◌∷◌, ◌++◌, append_assoc, length, length-append, ltb,
}
use map_reduce_rpc.RingBuffer.{RingBuffer}
use map_reduce_rpc.RingBuffer.Calls.{IsQueue}
use map_reduce_rpc.Durable.Types.{Handle, Content, Error}
use map_reduce_rpc.Durable.Buffer.{DurableBuffer, is_handle_expired}
use map_reduce_rpc.Durable.Write.Refine.{answer_write, queue_write, noted, write_refines}
use map_reduce_rpc.Coordinator.Calls.{forward_download, reply_to, download_reply}
use map_reduce_rpc.Uploader.{
  FileRead, read_bytes, read_eof, read_error, uploaded, upload_loop, download_request,
}

-- The contents that the answers of `Read` become.
unfoldable pub contents_of : Handle → List FileRead → List Content
contents_of handle [] = []
contents_of handle (read_error ∷ reads) = []
contents_of handle (read_bytes [] ∷ reads) = contents_of handle reads
contents_of handle (read_bytes (b ∷ bytes) ∷ reads) =
    record { id = handle; eof = false; bytes = b ∷ bytes } ∷ contents_of handle reads
contents_of handle (read_eof bytes ∷ reads) = record { id = handle; eof = true; bytes = bytes } ∷ []

-- The answers are those of a file with this content.
abbrev pub Reads : List FileRead → List ℕ → Type 0
Reads [] file = ⊥
Reads (read_error ∷ reads) file = ⊥
Reads (read_bytes bytes ∷ reads) file = (rest : List ℕ) × (file ≡ bytes ++ rest) × Reads reads rest
Reads (read_eof bytes ∷ reads) file = file ≡ bytes

-- The log as the uploads see it: the queue that it holds, and when a handle expires.
pub record Log (d : DurableBuffer) (k : ℕ) (q : List Content) (d' : DurableBuffer) : Type 0 where
  pub holds : IsQueue d'.log k q
  pub same :
      (now : ℕ) (handle : Handle) → is_handle_expired now handle d' ≡ is_handle_expired now handle d

answer-kept :
    (expired : Bool) (policy bound : ℕ) (q : List Content) (c : Content)
    → expired ≡ false
    → length q < bound
    → answer_write expired policy bound q c ≡ (q ++ c ∷ [], none)
unfolding answer_write queue_write
answer-kept expired policy bound q c fresh room =
    let below : ltb (length q) bound ≡ true = ground arith in rw (fresh, below) refl

accepted-expiry :
    (log : RingBuffer Content) (c : Content) (d : DurableBuffer) (now : ℕ) (handle : Handle)
    → is_handle_expired now handle (record (noted none c d) { log = log })
      ≡ is_handle_expired now handle d
unfolding is_handle_expired
accepted-expiry log c d now handle = refl

-- A request whose handle is valid and for which there is room is appended.
forward-appends :
    (now : ℕ) (handle : Handle) (bytes : List ℕ) (eof : Bool) (d : DurableBuffer) (k : ℕ)
    (q : List Content)
    → IsQueue d.log k q
    → is_handle_expired now handle d ≡ false
    → length q < 2 ^ k
    → (d' : DurableBuffer) × (forward_download now (download_request handle bytes eof) d
        ≡ some (d', download_reply none))
      × Log d k (q ++ record { id = handle; eof = eof; bytes = bytes } ∷ []) d'
unfolding forward_download
forward-appends now handle bytes eof d k q h fresh room =
    let c : Content = record { id = handle; eof = eof; bytes = bytes } in
    let (log, holds, writes) = write_refines now c d k q h in
    let kept = answer-kept (is_handle_expired now handle d) d.policy (2 ^ k) q c fresh room in
    (
      record (noted none c d) { log = log },
      ap reply_to writes
          ∙ ap
              (λ (a : List Content × Option Error).
                reply_to (some (record (noted a.1 c d) { log = log }, a.1)))
              kept,
      record { holds = rw kept at holds; same = λ t j. accepted-expiry log c d t j },
    )

Log-trans :
    {d d' d'' : DurableBuffer} {k : ℕ} {q q' : List Content}
    → Log d k q d'
    → Log d' k q' d''
    → Log d k q' d''
Log-trans l m = record { holds = m.holds; same = λ t h. m.same t h ∙ l.same t h }

-- An upload whose calls arrive, whose handle stays valid and for whose contents there is room appends
-- them all.
pub upload_loop-appends :
    (clock : ℕ → ℕ) (arrives : ℕ → Bool) (i : ℕ) (handle : Handle) (reads : List FileRead)
    (file : List ℕ) (d : DurableBuffer) (k : ℕ) (q : List Content)
    → Reads reads file
    → ((j : ℕ) → arrives j ≡ true)
    → IsQueue d.log k q
    → ((j : ℕ) → is_handle_expired (clock j) handle d ≡ false)
    → length q + length (contents_of handle reads) ≤ 2 ^ k
    → (d' : DurableBuffer) × (upload_loop clock arrives i handle reads d ≡ some (d', uploaded))
      × Log d k (q ++ contents_of handle reads) d'
unfolding upload_loop contents_of
upload_loop-appends clock arrives i handle [] file d k q whole arrive h fresh room = absurd whole
upload_loop-appends clock arrives i handle (read_error ∷ reads) file d k q whole arrive h fresh
      room =
    absurd whole
upload_loop-appends clock arrives i handle (read_bytes [] ∷ reads) file d k q (rest, e, whole)
      arrive h fresh room =
    upload_loop-appends clock arrives i handle reads rest d k q whole arrive h fresh room
upload_loop-appends clock arrives i handle (read_bytes (b ∷ bytes) ∷ reads) file d k q
      (rest, e, whole) arrive h fresh room =
    let c : Content = record { id = handle; eof = false; bytes = b ∷ bytes } in
    let (d', forwards, l) =
      forward-appends (clock i) handle (b ∷ bytes) false d k q h (fresh i) (omega arith) in
    let counted = length-append q (c ∷ []) in
    let (d'', uploads, m) =
      upload_loop-appends clock arrives (suc i) handle reads rest d' k (q ++ c ∷ []) whole arrive
        l.holds (λ j. l.same (clock j) handle ∙ fresh j) (omega arith) in
    (
      d'',
      rw (arrive i, forwards, upload_loop) uploads,
      rw (append_assoc q (c ∷ []) (contents_of handle reads)) at (Log-trans l m),
    )
upload_loop-appends clock arrives i handle (read_eof bytes ∷ reads) file d k q whole arrive h fresh
      room =
    let (d', forwards, l) =
      forward-appends (clock i) handle bytes true d k q h (fresh i) (omega arith) in
    (d', rw (arrive i, forwards), l)
