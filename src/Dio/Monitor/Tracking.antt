-- ===== src/Dio/Monitor/Tracking.antt =====
-- dio_link.py, `LinkMonitor`: the accounts of a monitor that is fed the bits of test frames.
use espstation.Common.{
  ◌≡◌, refl, ◌∙◌, List, [], ◌∷◌, Option, none, some, Bytes, Result, err, stuck, ◌>>=◌,
}
use espstation.Common.{ok as done}
use espstation.Dio.Receiver.{FrameRx, RxStatus, ok, crc_err, len_err, RxResult, fresh, report}
use espstation.Dio.Receiver
use espstation.Dio.Receiver.Bits.{run_bits}
use espstation.Dio.Monitor.{
  FrameReport, LinkMonitor, IndexError, first_byte, compare_payload, account_as, account,
  account_some, feed_bit, feed_bits, append_report,
}

-- The results of the receiver, accounted one after the other.
unfoldable pub account_all :
    LinkMonitor → List RxResult → Result IndexError (LinkMonitor × List FrameReport)
account_all monitor [] = done (monitor, [])
account_all monitor (result ∷ results) = do
  (monitor, report) ← account monitor result
  (monitor, later) ← account_all monitor results
  done (monitor, report ∷ later)

abbrev pub with_rx {ℓ} :
    {A : Type ℓ}
    → FrameRx
    → Result IndexError (LinkMonitor × A)
    → Result IndexError (LinkMonitor × A)
with_rx rx m = m >>= λ (monitor, a). done (record monitor { rx = rx }, a)

account_as-with_rx :
    (status : RxStatus) (rx : FrameRx) (monitor : LinkMonitor) (result : RxResult) (payload : Bytes)
    → result.payload ≡ payload
    → account_as status (record monitor { rx = rx }) result
      ≡ with_rx rx (account_as status monitor result)
unfolding account_as compare_payload first_byte
account_as-with_rx len_err rx monitor result payload e = refl
account_as-with_rx crc_err rx monitor result payload e = refl
account_as-with_rx ok rx monitor result [] e = rw e refl
account_as-with_rx ok rx monitor result (b ∷ payload) e = rw e refl

-- No account reads or changes the receiver.
account-with_rx :
    (rx : FrameRx) (monitor : LinkMonitor) (result : RxResult)
    → account (record monitor { rx = rx }) result ≡ with_rx rx (account monitor result)
unfolding account
account-with_rx rx monitor result =
    account_as-with_rx result.status rx monitor result result.payload refl

account_then :
    List RxResult → LinkMonitor × FrameReport → Result IndexError (LinkMonitor × List FrameReport)
account_then results (monitor, report) = do
  (monitor, later) ← account_all monitor results
  done (monitor, report ∷ later)

with_rx-map {ℓ κ} :
    {A : Type ℓ} {B : Type κ} (rx : FrameRx) (h : A → B) (m : Result IndexError (LinkMonitor × A))
    → (with_rx rx m >>= λ (x, a). done (x, h a)) ≡ with_rx rx (m >>= λ (x, a). done (x, h a))
with_rx-map rx h (done m) = refl
with_rx-map rx h (err e) = refl
with_rx-map rx h stuck = refl

with_rx-with_rx {ℓ} :
    {A : Type ℓ} (rx rx' : FrameRx) (m : Result IndexError (LinkMonitor × A))
    → with_rx rx (with_rx rx' m) ≡ with_rx rx m
with_rx-with_rx rx rx' (done m) = refl
with_rx-with_rx rx rx' (err e) = refl
with_rx-with_rx rx rx' stuck = refl

>>=-done {ℓ} :
    {A : Type ℓ} (m : Result IndexError (LinkMonitor × A)) → (m >>= λ (x, a). done (x, a)) ≡ m
>>=-done (done m) = refl
>>=-done (err e) = refl
>>=-done stuck = refl

with_rx->>= :
    (rx : FrameRx) (results : List RxResult)
    → ((monitor : LinkMonitor)
        → account_all (record monitor { rx = rx }) results
          ≡ with_rx rx (account_all monitor results))
    → (m : Result IndexError (LinkMonitor × FrameReport))
    → (with_rx rx m >>= account_then results) ≡ with_rx rx (m >>= account_then results)
unfolding account_then
with_rx->>= rx results later (done (monitor, report)) =
    rw (later monitor) (with_rx-map rx (λ l. report ∷ l) (account_all monitor results))
with_rx->>= rx results later (err e) = refl
with_rx->>= rx results later stuck = refl

account_all-with_rx :
    (rx : FrameRx) (results : List RxResult) (monitor : LinkMonitor)
    → account_all (record monitor { rx = rx }) results ≡ with_rx rx (account_all monitor results)
unfolding account_all account_then
account_all-with_rx rx [] monitor = refl
account_all-with_rx rx (result ∷ results) monitor =
    rw (account-with_rx rx monitor result)
      (with_rx->>= rx results (account_all-with_rx rx results) (account monitor result))

report_then :
    Bytes → LinkMonitor × Option FrameReport → Result IndexError (LinkMonitor × List FrameReport)
report_then bits (monitor, report) = do
  (monitor, later) ← feed_bits monitor bits
  done (monitor, append_report report later)

abbrev pub Replayed : FrameRx → Bytes → Type 0
Replayed rx bits =
    (monitor : LinkMonitor)
    → feed_bits (record monitor { rx = rx }) bits
      ≡ with_rx (run_bits rx bits).0 (account_all monitor (run_bits rx bits).1)

replay_some :
    (rx : FrameRx) (bits : Bytes)
    → Replayed rx bits
    → (m : Result IndexError (LinkMonitor × FrameReport))
    → ((with_rx rx m >>= λ (monitor, report). done (monitor, some report)) >>= report_then bits)
      ≡ with_rx (run_bits rx bits).0 (m >>= account_then (run_bits rx bits).1)
unfolding report_then account_then
replay_some rx bits later (done (monitor, report)) =
    rw (later monitor) (
      with_rx-map (run_bits rx bits).0 (λ l. report ∷ l) (account_all monitor (run_bits rx bits).1))
replay_some rx bits later (err e) = refl
replay_some rx bits later stuck = refl

replay :
    (monitor : LinkMonitor) (rx : FrameRx) (r : Option RxResult) (bits : Bytes)
    → Replayed rx bits
    → (account_some (record monitor { rx = rx }) r >>= report_then bits)
      ≡ with_rx (run_bits rx bits).0 (account_all monitor (report r (run_bits rx bits).1))
unfolding account_some report_then account_all account_then
replay monitor rx none bits later = >>=-done _ ∙ later monitor
replay monitor rx (some result) bits later =
    rw (account-with_rx rx monitor result) (replay_some rx bits later (account monitor result))

-- Bit by bit, the monitor accounts what its receiver reports.
pub feed_bits-account_all : (rx : FrameRx) (bits : Bytes) → Replayed rx bits
unfolding feed_bits account_all feed_bit run_bits report_then
feed_bits-account_all rx [] monitor = refl
feed_bits-account_all rx (bit ∷ bits) monitor =
    replay monitor (Receiver.feed_bit rx bit).0 (Receiver.feed_bit rx bit).1 bits
      (feed_bits-account_all (Receiver.feed_bit rx bit).0 bits)
