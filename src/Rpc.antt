-- ===== src/Rpc.antt =====
-- The messages between the processes, of mrp/rpc_definitions.go, and the key-value pairs of
-- mrp/types.go. An `int` is an `int64`, a text is the list of its bytes.
use map_reduce_rpc.Prelude.{ℕ, Bool, List}
use map_reduce_rpc.Durable.Types.{Handle}

pub record DownloadRequest : Type 0 where
  pub handle : Handle
  pub bytes : List ℕ
  pub eof : Bool

pub record DownloadReply : Type 0 where
  pub status : List ℕ
  pub error_code : ℕ

pub record StartMapReduceRequest : Type 0 where
  pub handle : Handle
  pub plugin : List ℕ

pub record StartMapReduceReply : Type 0 where
  pub status : List ℕ
  pub error_code : ℕ

pub record ChunkInfo : Type 0 where
  pub index : ℕ
  pub offset : ℕ
  pub size : ℕ
  pub path : List ℕ
  pub handle : ℕ

pub record FileMetadata : Type 0 where
  pub handle : Handle
  pub source_log : List ℕ
  pub source_path : List ℕ
  pub size_bytes : ℕ
  pub mod_unix_nano : ℕ
  pub uploaded_at : List ℕ
  pub completed : Bool
  pub raw_content : List ℕ
  pub chunks : List ChunkInfo

pub record MapReduceRequest : Type 0 where
  pub handle : Handle
  pub file : FileMetadata
  pub chunk_index : ℕ
  pub chunk_info : ChunkInfo

pub record MapReduceReply : Type 0 where
  pub status : List ℕ
  pub error_code : ℕ

pub record MapReduceResultRequest : Type 0 where
  pub handle : Handle
  pub chunk_index : ℕ
  pub worker_addr : List ℕ
  pub output_file : List ℕ
  pub output_data : List ℕ
  pub generated_at : List ℕ

pub record JobCompleteRequest : Type 0 where
  pub handle : Handle
  pub result_file : List ℕ

pub record HeartbeatRequest : Type 0 where
  pub worker_id : List ℕ
  pub message : List ℕ

pub record HeartbeatReply : Type 0 where
  pub status : List ℕ
  pub message : List ℕ

pub record KeyValue : Type 0 where
  pub key : List ℕ
  pub value : List ℕ
