-- ===== src/Server/Elbs/Report.antt =====
-- turnserver_main.cc: the report packets that go to the edge server.
use turnserver_v.Base.{ℕ, ◌+◌, ◌/◌, ◌%◌, ◌^◌, List, ◌++◌, length, le_bytes}

pub record ArgusReportHead : Type 0 where
  pub size_ : ℕ
  pub type_ : ℕ
  pub qos_ : ℕ
  pub seq_ : ℕ
  pub send_ts_ : ℕ
  pub vid_ : ℕ
  pub cid_ : ℕ

-- The struct in memory: it has no padding.
unfoldable pub head_bytes : ArgusReportHead → List ℕ
head_bytes h =
    le_bytes 2 h.size_
    ++ le_bytes 1 h.type_
    ++ le_bytes 1 h.qos_
    ++ le_bytes 4 h.seq_
    ++ le_bytes 4 h.send_ts_
    ++ le_bytes 4 h.vid_
    ++ le_bytes 4 h.cid_

abbrev pub sizeof_head : ℕ
sizeof_head = 20

unfoldable pub report_packet : ℕ → List ℕ → List ℕ
report_packet now payload =
    head_bytes (record {
      size_ = (length payload + sizeof_head) % 2 ^ 16;
      type_ = 3;
      qos_ = 0;
      seq_ = 0;
      send_ts_ = now / 1000 % 2 ^ 32;
      vid_ = 161891;
      cid_ = 2888778408;
    })
    ++ payload
