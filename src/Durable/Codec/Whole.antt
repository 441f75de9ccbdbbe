-- ===== src/Durable/Codec/Whole.antt =====
-- Files of complete records.
use map_reduce_rpc.Prelude.{◌≡◌, refl, ap, ◌∙◌, sym, arith, false, List, [], append-nil, All}
use map_reduce_rpc.Durable.Types.{Content, IsContent}
use map_reduce_rpc.Durable.Codec.{build_log_content, le_bytes, read_records}
use map_reduce_rpc.Durable.Codec.Torn.{encode_all, IsTorn, read_records-encode_all}

nothing-IsTorn : IsTorn []
unfolding build_log_content le_bytes
nothing-IsTorn = record {
  content = record { id = record { id = 0; time_stamp = 0 }; eof = false; bytes = [] };
  valid = record { handle = (omega arith, omega arith); short = omega arith; bytes = tt };
  next = 0;
  back = _;
  cut = refl;
}

pub read_records-All : (cs : List Content) → All IsContent cs → read_records (encode_all cs) ≡ cs
read_records-All cs h =
    ap read_records (sym (append-nil (encode_all cs)))
    ∙ read_records-encode_all cs [] h nothing-IsTorn
