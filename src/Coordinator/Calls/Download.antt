-- ===== src/Coordinator/Calls/Download.antt =====
-- The reply to a download, and what it leaves in the durable log.
use map_reduce_rpc.Prelude.{
  ℕ, ◌^◌, ◌≡◌, refl, ap, ◌∙◌, Bool, true, false, ◌||◌, ◌&&◌, not, some, List, length, ltb, eqb,
  if◌then◌else◌, Bool-cases, inl, inr,
}
use map_reduce_rpc.Prelude.Text.{codes}
use map_reduce_rpc.RingBuffer.Calls.{IsQueue}
use map_reduce_rpc.Durable.Types.{Content, overflow_reject}
use map_reduce_rpc.Durable.Buffer.{DurableBuffer, is_handle_expired}
use map_reduce_rpc.Durable.Write.Refine.{queue_write, answer_write, noted, write_refines}
use map_reduce_rpc.Rpc.{DownloadRequest, DownloadReply}
use map_reduce_rpc.Coordinator.Calls.{download_reply, reply_to, forward_download}

abbrev pub content_of : DownloadRequest → Content
content_of request = record { id = request.handle; eof = request.eof; bytes = request.bytes }

-- Whether a download is kept: its handle is valid, and there is room or the policy makes some.
abbrev pub is_kept : ℕ → DownloadRequest → DurableBuffer → ℕ → ℕ → Bool
is_kept now request d held bound =
    not (is_handle_expired now request.handle d)
    && (ltb held bound || not (eqb d.policy overflow_reject))

answer_write-reply :
    (expired : Bool) (policy bound : ℕ) (q : List Content) (c : Content)
    → download_reply (answer_write expired policy bound q c).1 ≡ (
        if not expired && (ltb (length q) bound || not (eqb policy overflow_reject))
        then record { status = codes "success"; error_code = 0 }
        else record { status = codes "error"; error_code = 400 })
unfolding answer_write queue_write
answer_write-reply true policy bound q c = refl
answer_write-reply false policy bound q c = elim (Bool-cases (ltb (length q) bound)) [
  | inl room ↦ rw room refl
  | inr full ↦ elim (Bool-cases (eqb policy overflow_reject)) [
    | inl reject ↦ rw (full, reject) refl
    | inr drop ↦ rw (full, drop) refl
  ]
]

-- Every download is answered: with success when it is kept, and with the client's error 400 when its
-- handle is invalid or the log is full and rejects. The server's error 500 is never the answer. The log
-- then holds the queue that the write leaves.
pub forward_download_lem :
    (now : ℕ) (request : DownloadRequest) (d : DurableBuffer) (k : ℕ) (q : List Content)
    → IsQueue d.log k q
    → (d' : DurableBuffer) × (forward_download now request d
        ≡ some (
          d',
          if is_kept now request d (length q) (2 ^ k)
              then record { status = codes "success"; error_code = 0 }
              else record { status = codes "error"; error_code = 400 },
        ))
      × IsQueue d'.log k
          (answer_write
            (is_handle_expired now request.handle d)
            d.policy
            (2 ^ k)
            q
            (content_of request)).0
unfolding forward_download
forward_download_lem now request d k q h =
    let (log, after, writes) = write_refines now (content_of request) d k q h in
    let answer =
      answer_write (is_handle_expired now request.handle d) d.policy (2 ^ k) q
        (content_of request) in
    let d' : DurableBuffer = record (noted answer.1 (content_of request) d) { log = log } in
    (
      d',
      ap reply_to writes
          ∙ ap (λ (r : DownloadReply). some (d', r))
              (answer_write-reply (is_handle_expired now request.handle d) d.policy (2 ^ k) q
                (content_of request)),
      after,
    )
