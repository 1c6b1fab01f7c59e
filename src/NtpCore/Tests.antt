-- ===== src/NtpCore/Tests.antt =====
-- A client on concrete packets and events.
mod Server
use chrony.Common.{
  ℕ, ◌+◌, ◌≤◌, true, false, Option, none, some, List, [], ◌∷◌, ◌≡◌, ◌≢◌, ◌⊎◌, ◌>>=◌, if◌then◌else◌,
  arith, refl, inl, inr, ap,
}
use chrony.Common.Signed.{pos, ltb_ℤ, ◌+ℤ◌, ◌-ℤ◌}
use chrony.Util.Time.{compare_timespecs}
use chrony.Util.Ntp64.{zero_ntp64, compare_ntp64, is_equal_any_ntp64, is_zero_ntp64}
use chrony.Clientlog.Limits.{to_word32}
use chrony.Clientlog.Timestamps.Runs.{NtpInt64}
use chrony.NtpCore.{
  NcrInstance, Message, md_online, md_burst_was_offline, mode_client, is_poll, ntp_lvm_to_leap,
  ntp_lvm_to_mode,
}
use chrony.NtpCore.Poll.{
  PollChange, SampleUpdate, modify_minpoll, modify_maxpoll, adjust_poll, adjusted_poll,
  process_sample,
}
use chrony.NtpCore.Timeouts.{
  src_online, zero_local_timestamp, set_connectivity, reset_instance, start_initial_timeout,
  restart_timeout, initiate_sample_burst, start_instance, close_client_socket, requeue,
  take_offline,
}
use chrony.NtpCore.Response.{
  Verdicts, process_saved_response, accept_response, accumulate, can_save, count_good, count_valid,
  finish_response, good_packet, has_sample, local_transmit, known_sources, is_kod_rate,
  packet_tests, process_response, record_response, requeue_response, response_stratum,
  synced_packet, takes_init_timestamps, takes_timestamps, test_a, update_timestamps, valid_packet,
}
use chrony.NtpCore.Transmit.{
  TransmitIo, transmit_packet, received_timestamps, draw, is_unknown, turns, receive_time,
  receive_turns, transmit_turns, is_interleaved, mark_server, ntp_lvm, reference,
}
use chrony.NtpCore.Request.{
  RequestIo, transmit_timeout, send_request, open_socket, transmit_request, after_transmission,
  back_off, count_burst, count_request, is_initial, prepare_request, requeue_request,
  wants_interleaved, auto_burst_samples,
}
use chrony.NtpCore.Events.{
  Event, packet, process_packet, count_rx, transmit_timer, start, run, process_rx_known, step,
  is_response_mode,
}
use chrony.NtpCore.Create.{SourceParameters, create_instance, configured_poll}
use chrony.NtpCore.Draws.{FourDiffer, HasCandidates, transmit_packet-ends}
use chrony.NtpCore.Distinct.{AllPackets, IsDistinct, transmit_packet-IsDistinct}
use chrony.NtpCore.Limits.{with_minpoll, with_maxpoll, modify_minpoll-limits}
use chrony.NtpCore.Sound.{IsSound, Returns}
use chrony.NtpCore.Sound.Runs.{CanDraw, run-create_instance}
use chrony.NtpCore.Accepted.Runs.{count_requests, run-count_requests}
use chrony.NtpCore.Conditions.{IsAnswer}
use chrony.NtpCore.Answers.{process_rx_known-answers, process_rx_known-unchanged}

abbrev pub ntp : ℕ → NtpInt64
ntp lo = record { hi = 9; lo = lo }

abbrev no_change : PollChange
no_change = record { steps = pos 0; local_network = true }

abbrev no_update : SampleUpdate
no_update = record { max_samples = 0; filtered = false; change = no_change }

-- A good response, without hardware timestamping.
abbrev good : Verdicts
good = record {
  mono_root = none;
  authentic = true;
  distance_ok = true;
  hw_ts_enabled = false;
  hw_ts_timeout = false;
  prefer_previous = false;
  delay_ok = true;
  offset_sane = true;
  slow_server = false;
  delay_over_half = false;
  missed_response = false;
  test_b = true;
  test_c = true;
  test_d = true;
  miss = no_change;
  update = no_update;
}

abbrev pub four : List NtpInt64
four = ntp 1 ∷ ntp 2 ∷ ntp 3 ∷ ntp 4 ∷ []

abbrev pub tx_io : TransmitIo
tx_io = record {
  leap = 0;
  stratum = 0;
  reference_id = 0;
  smooth = λ ts. ts;
  receive_candidates = four;
  fields_added = true;
  transmit_candidates = four;
  authenticated = true;
  length = 48;
  sent = true;
  sent_at = record { tv_sec = pos 1000; tv_nsec = 0 };
}

abbrev request_io : RequestIo
request_io = record {
  verdicts = good;
  prepared = true;
  opened_fd = pos 5;
  version = 4;
  transmit = tx_io;
  backoff = no_change;
  reachable = false;
  update = no_update;
}

-- What a server answers to a request with the given transmit timestamp.
abbrev response : ℕ → ℕ → Message
response originate receive = record {
  lvm = 36;
  stratum = 2;
  poll = pos 6;
  reference_id = 7;
  originate_ts = ntp originate;
  receive_ts = ntp receive;
  transmit_ts = ntp (receive + 1);
}

abbrev params : SourceParameters
params = record {
  peer = false;
  server_fd = pos 0;
  interleaved = false;
  minpoll = pos 6;
  maxpoll = pos 10;
  presend_minpoll = pos 100;
  iburst = true;
  burst = false;
  auto_offline = false;
  copy = false;
  filter_length = 0;
  connectivity = src_online;
}

-- A request, two different responses to it, and the next request.
abbrev events : List Event
events =
    start
    ∷ transmit_timer request_io
    ∷ packet (pos 5) zero_local_timestamp (response 1 20) good good
    ∷ packet (pos 5) zero_local_timestamp (response 1 30) good good
    ∷ transmit_timer request_io
    ∷ []

differ : (a b : NtpInt64) → a.lo ≢ b.lo → a ≢ b
differ a b h e = h (ap (λ (x : NtpInt64). x.lo) e)

four-FourDiffer : FourDiffer four
four-FourDiffer = record {
  a = ntp 1;
  b = ntp 2;
  c = ntp 3;
  d = ntp 4;
  rest = [];
  start = refl;
  a_b = differ (ntp 1) (ntp 2) (omega arith);
  a_c = differ (ntp 1) (ntp 3) (omega arith);
  a_d = differ (ntp 1) (ntp 4) (omega arith);
  b_c = differ (ntp 2) (ntp 3) (omega arith);
  b_d = differ (ntp 2) (ntp 4) (omega arith);
  c_d = differ (ntp 3) (ntp 4) (omega arith);
}

tx_io-HasCandidates : HasCandidates tx_io
tx_io-HasCandidates = record { receive = four-FourDiffer; transmit = four-FourDiffer }

events-CanDraw : CanDraw events
events-CanDraw = (tt, (tx_io-HasCandidates, (tt, (tt, (tx_io-HasCandidates, tt)))))

run-create_instance_example :
    Returns (IsSound true) (create_instance params >>= λ inst. run inst events)
run-create_instance_example = run-create_instance params events events-CanDraw

run-count_requests_example :
    Returns
      (λ inst. inst.total_valid_count ≤ count_requests events)
      (create_instance params >>= λ inst. run inst events)
run-count_requests_example =
    run-count_requests params events events-CanDraw (tt, (tt, (refl, (refl, (tt, tt)))))

-- The first request of a peer, which has received nothing yet.
transmit_packet-ends_example :
    transmit_packet 1 false
      (pos 6)
      4
      0
      (some zero_ntp64)
      zero_ntp64
      zero_local_timestamp
      (some zero_local_timestamp)
      (some zero_ntp64)
      (some zero_ntp64)
      none
      tx_io
    ≢ none
transmit_packet-ends_example =
    transmit_packet-ends 1 false (pos 6) 4 0 (some zero_ntp64) zero_ntp64 zero_local_timestamp
      (some zero_local_timestamp) (some zero_ntp64) (some zero_ntp64) none tx_io tx_io-HasCandidates

transmit_packet-IsDistinct_example : AllPackets (IsDistinct 4 none) (
    transmit_packet 4 false (pos 6) 4 0 none (ntp 7) zero_local_timestamp none none none none tx_io)
transmit_packet-IsDistinct_example =
    transmit_packet-IsDistinct 4 false (pos 6) 4 0 none (ntp 7) zero_local_timestamp none none none
      none tx_io

-- A client that waits for the response to its request.
abbrev asked : NcrInstance
asked = record {
  mode = mode_client;
  interleaved = false;
  opmode = md_online;
  sock_fd = pos 5;
  rx_timeout = true;
  tx_timeout = true;
  tx_suspended = false;
  auto_iburst = false;
  auto_burst = false;
  auto_offline = false;
  local_poll = pos 6;
  remote_poll = pos 0;
  remote_stratum = 0;
  presend_minpoll = pos 100;
  presend_done = 0;
  minpoll = pos 6;
  maxpoll = pos 10;
  copy = false;
  tx_count = 1;
  valid_rx = false;
  valid_timestamps = false;
  remote_mono_epoch = 0;
  remote_ntp_monorx = zero_ntp64;
  remote_ntp_rx = zero_ntp64;
  remote_ntp_tx = zero_ntp64;
  local_ntp_rx = zero_ntp64;
  local_rx = zero_local_timestamp;
  local_ntp_tx = ntp 1;
  local_tx = zero_local_timestamp;
  prev_local_tx = zero_local_timestamp;
  prev_local_poll = pos 0;
  prev_tx_count = 0;
  updated_init_timestamps = false;
  init_remote_ntp_tx = zero_ntp64;
  init_local_rx = zero_local_timestamp;
  filter = false;
  filter_count = 0;
  saved_response = none;
  burst_good_samples_to_go = pos 0;
  burst_total_samples_to_go = pos 0;
  total_tx_count = 1;
  total_rx_count = 0;
  total_valid_count = 0;
  total_good_count = 0;
  total_kernel_tx_ts = 0;
  total_kernel_rx_ts = 0;
  total_hw_tx_ts = 0;
  total_hw_rx_ts = 0;
}

asked-IsSound : IsSound true asked
unfolding ltb_ℤ
asked-IsSound = record {
  known_mode = refl;
  local_in_range = refl;
  min_in_range = refl;
  max_in_range = refl;
  min_le_max = refl;
  stopped_of_suspended = λ e. cc e;
  stopped_of_offline = λ e. cc e;
  running = λ _ _ _. refl;
}

process_rx_known-answers_example :
    Returns
      (λ next.
        IsSound true next
        × ((IsAnswer asked (pos 5) (response 1 20) good × (next.total_valid_count ≡ 0 + 1))
            ⊎ ((IsAnswer asked (pos 5) (response 1 20) good → ⊥) × (next.total_valid_count ≡ 0))))
      (process_rx_known asked (pos 5) zero_local_timestamp (response 1 20) good good)
process_rx_known-answers_example =
    process_rx_known-answers asked (pos 5) zero_local_timestamp (response 1 20) good good
      asked-IsSound refl

-- It answers another request.
no_answer : IsAnswer asked (pos 5) (response 2 20) good → ⊥
no_answer a = elim a.answers [ inl e ↦ differ (ntp 2) (ntp 1) (omega arith) e | inr e ↦ cc (e.0) ]

process_rx_known-unchanged_example :
    process_rx_known asked (pos 5) zero_local_timestamp (response 2 20) good good
    ≡ some (count_rx asked zero_local_timestamp)
process_rx_known-unchanged_example =
    process_rx_known-unchanged asked (pos 5) zero_local_timestamp (response 2 20) good good refl
      refl no_answer

modify_minpoll-limits_example :
    (modify_minpoll 2 asked (pos 12)
      ≡ some (if is_poll (pos 12) then with_minpoll asked (pos 12) else asked))
    × (modify_maxpoll 2 asked (pos 12)
        ≡ some (if is_poll (pos 12) then with_maxpoll asked (pos 12) else asked))
modify_minpoll-limits_example = modify_minpoll-limits 0 asked (pos 12)

abbrev valid_count : Option NcrInstance → ℕ
valid_count none = 0
valid_count (some inst) = inst.total_valid_count

-- Of two responses to one request the first is accepted.
one_response_lem : valid_count (create_instance params >>= λ inst. run inst events) ≡ 1
unfolding set_connectivity reset_instance start_initial_timeout restart_timeout
    initiate_sample_burst start_instance close_client_socket requeue take_offline step
    is_response_mode configured_poll transmit_timeout send_request open_socket transmit_request
    after_transmission back_off count_burst count_request is_initial prepare_request requeue_request
    wants_interleaved auto_burst_samples process_saved_response accept_response accumulate can_save
    count_good count_valid finish_response good_packet is_kod_rate packet_tests process_response
    record_response requeue_response response_stratum synced_packet takes_init_timestamps
    takes_timestamps test_a update_timestamps valid_packet adjust_poll adjusted_poll process_sample
    received_timestamps draw is_interleaved mark_server ntp_lvm reference ntp_lvm_to_leap
    ntp_lvm_to_mode compare_ntp64 is_equal_any_ntp64 is_zero_ntp64 compare_timespecs ◌+ℤ◌ ◌-ℤ◌
    process_rx_known process_packet transmit_packet has_sample local_transmit known_sources
    is_unknown turns receive_time receive_turns transmit_turns to_word32 ltb_ℤ run create_instance
one_response_lem = refl

abbrev saving : Verdicts
saving = record good { hw_ts_enabled = true; hw_ts_timeout = true }

-- The last sample of a burst of an offline source.
abbrev last_of_burst : NcrInstance
last_of_burst = record asked {
  opmode = md_burst_was_offline;
  burst_good_samples_to_go = pos 1;
  total_valid_count = 1;
  total_good_count = 1;
}

-- With hardware timestamping, two responses to its one request are accepted: the first one, which
-- is saved, takes the source offline, and that resets the flag of the valid response.
second_response_lem :
    valid_count (
      run last_of_burst (
        packet (pos 5) zero_local_timestamp (response 1 20) saving good
        ∷ packet (pos 5) zero_local_timestamp (response 1 30) saving good
        ∷ []))
    ≡ 3
unfolding set_connectivity reset_instance start_initial_timeout restart_timeout
    initiate_sample_burst start_instance close_client_socket requeue take_offline step
    is_response_mode configured_poll transmit_timeout send_request open_socket transmit_request
    after_transmission back_off count_burst count_request is_initial prepare_request requeue_request
    wants_interleaved auto_burst_samples process_saved_response accept_response accumulate can_save
    count_good count_valid finish_response good_packet is_kod_rate packet_tests process_response
    record_response requeue_response response_stratum synced_packet takes_init_timestamps
    takes_timestamps test_a update_timestamps valid_packet adjust_poll adjusted_poll process_sample
    received_timestamps draw is_interleaved mark_server ntp_lvm reference ntp_lvm_to_leap
    ntp_lvm_to_mode compare_ntp64 is_equal_any_ntp64 is_zero_ntp64 compare_timespecs ◌+ℤ◌ ◌-ℤ◌
    process_rx_known process_packet transmit_packet has_sample local_transmit known_sources
    is_unknown turns receive_time receive_turns transmit_turns to_word32 ltb_ℤ run create_instance
second_response_lem = refl
