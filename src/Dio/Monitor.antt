-- ===== src/Dio/Monitor.antt =====
-- dio_link.py, `LinkStats` and `LinkMonitor`: what a node learns from the frames it receives. The
-- ratio `ber`, a floating-point number, is left out.
pub mod Tracking
pub mod Accounts
use espstation.Common.{
  ℕ, zero, suc, ◌+◌, ◌-◌, ◌*◌, ◌%◌, ◌^◌, ◌≤◌, ◌<◌, ◌≡◌, refl, ap, ◌∙◌, sym, subst, arith, List, [],
  ◌∷◌, Option, none, some, Bytes, length, All, map, Result, err, raise_if, ◌>>=◌,
}
use espstation.Common.{ok as done}
use espstation.Dio.Receiver.{FrameRx, RxStatus, ok, crc_err, len_err, RxResult}
use espstation.Dio.Receiver
use espstation.Dio.TestFrames.{
  testframe_payload, resync_index, payload_bit_errors, payload_bit_errors_self,
  testframe_payload_shape, resync_index-ahead,
}

pub record LinkStats : Type 0 where
  pub bits_rx : ℕ
  pub frames_ok : ℕ
  pub frames_crc_err : ℕ
  pub frames_len_err : ℕ
  pub bit_errors : ℕ

unfoldable pub frames_err : LinkStats → ℕ
frames_err stats = stats.frames_crc_err + stats.frames_len_err

pub record FrameReport : Type 0 where
  pub status : RxStatus
  pub length : ℕ
  pub expected_seq : ℕ
  pub missed : ℕ
  pub bit_errors : ℕ

pub record LinkMonitor : Type 0 where
  pub rx : FrameRx
  pub stats : LinkStats
  pub expected : ℕ

-- `payload[0]` of a payload that is empty.
pub data IndexError : Type 0 where
  empty_payload : IndexError

pub first_byte : Bytes → Result IndexError ℕ
first_byte [] = err empty_payload
first_byte (b ∷ payload) = done b

-- The part of `_account` after the index is known: the payload is compared and counted.
pub compare_payload : LinkMonitor → RxResult → ℕ → LinkMonitor × FrameReport
compare_payload monitor result missed =
    let errors = payload_bit_errors result.payload (testframe_payload monitor.expected) in
    let stats = record monitor.stats {
      bit_errors = monitor.stats.bit_errors + errors;
      bits_rx = monitor.stats.bits_rx + (2 + result.len) * 8;
    } in
    (
      record monitor { stats = stats; expected = monitor.expected + 1 },
      record {
        status = result.status;
        length = result.len;
        expected_seq = monitor.expected;
        missed = missed;
        bit_errors = errors;
      },
    )

pub account_as : RxStatus → LinkMonitor → RxResult → Result IndexError (LinkMonitor × FrameReport)
account_as len_err monitor result = done (
  record monitor {
    stats = record monitor.stats { frames_len_err = monitor.stats.frames_len_err + 1 };
  },
  record {
    status = len_err;
    length = 0;
    expected_seq = monitor.expected;
    missed = 0;
    bit_errors = 0;
  },
)
account_as ok monitor result = do
  byte0 ← first_byte result.payload
  let resynced = resync_index monitor.expected byte0
  done (
      compare_payload
        (record monitor {
          expected = resynced;
          stats = record monitor.stats { frames_ok = monitor.stats.frames_ok + 1 };
        })
        result (resynced - monitor.expected))
account_as crc_err monitor result = done (
    compare_payload
      (record monitor {
        stats = record monitor.stats { frames_crc_err = monitor.stats.frames_crc_err + 1 };
      })
      result 0)

unfoldable pub account : LinkMonitor → RxResult → Result IndexError (LinkMonitor × FrameReport)
unfolding account_as compare_payload first_byte
account monitor result = account_as result.status monitor result

pub account_some :
    LinkMonitor → Option RxResult → Result IndexError (LinkMonitor × Option FrameReport)
account_some monitor none = done (monitor, none)
account_some monitor (some result) = do
  (monitor, report) ← account monitor result
  done (monitor, some report)

unfoldable pub feed_bit : LinkMonitor → ℕ → Result IndexError (LinkMonitor × Option FrameReport)
unfolding account_some
feed_bit monitor bit =
    let (rx, result) = Receiver.feed_bit monitor.rx bit in
    account_some (record monitor { rx = rx }) result

abbrev pub append_report : Option FrameReport → List FrameReport → List FrameReport
append_report none later = later
append_report (some r) later = r ∷ later

unfoldable pub feed_bits : LinkMonitor → Bytes → Result IndexError (LinkMonitor × List FrameReport)
feed_bits monitor [] = done (monitor, [])
feed_bits monitor (bit ∷ bits) = do
  (monitor, report) ← feed_bit monitor bit
  (monitor, later) ← feed_bits monitor bits
  done (monitor, append_report report later)
