-- ===== src/Coordinator/Calls.antt =====
-- The calls that the coordinator answers, in mrp/coordinator.go.
pub mod Download
use map_reduce_rpc.Prelude.{
  ℕ, Bool, true, false, Option, none, some, List, [], ◌∷◌, ◌++◌, length, eqb, if◌then◌else◌,
}
use map_reduce_rpc.Prelude.Text.{codes}
use map_reduce_rpc.Durable.Types.{
  Handle, Content, Error, invalid_handle, buffer_full, buffer_full_after_retries, mkdir_failed,
  open_failed, write_failed, sync_failed,
}
use map_reduce_rpc.Durable.Buffer.{DurableBuffer, generate_handle, release_processing_handle}
use map_reduce_rpc.Durable.Write.{write}
use map_reduce_rpc.Rpc.{DownloadRequest, DownloadReply}

-- `RPCPing`
unfoldable pub ping : List ℕ → List ℕ
ping [] = codes "pong"
ping (c ∷ message) = codes "pong: " ++ (c ∷ message)

-- The `switch` on the error of `Write`. The error after the retries wraps `ErrBufferFull` and is
-- compared by `==`, so it is none of the cases.
abbrev pub download_reply : Option Error → DownloadReply
download_reply none = record { status = codes "success"; error_code = 0 }
download_reply (some invalid_handle) = record { status = codes "error"; error_code = 400 }
download_reply (some buffer_full) = record { status = codes "error"; error_code = 400 }
download_reply (some _) = record { status = codes "error"; error_code = 500 }

abbrev pub reply_to : Option (DurableBuffer × Option Error) → Option (DurableBuffer × DownloadReply)
reply_to none = none
reply_to (some (d, answer)) = some (d, download_reply answer)

-- `RPCForwardDownload`, with the reading of the clock. `none`: a call of the ring did not return.
unfoldable pub forward_download :
    ℕ → DownloadRequest → DurableBuffer → Option (DurableBuffer × DownloadReply)
forward_download now request d =
    reply_to
      (write now (record { id = request.handle; eof = request.eof; bytes = request.bytes }) d)

-- `RPCGenerateDownloadHandle`
unfoldable pub generate_download_handle : ℕ → DurableBuffer → DurableBuffer × Handle
generate_download_handle now d = generate_handle now d

-- `RPCNotifyJobComplete`
unfoldable pub notify_job_complete : Handle → DurableBuffer → DurableBuffer
notify_job_complete handle d = release_processing_handle handle d
