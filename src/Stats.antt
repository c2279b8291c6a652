-- ===== src/Stats.antt =====
-- SampleStats, TimeRangedStats and SpeedController: how many packets were sent and lost, in slots of
-- 50 ms, and how many may be sent. Times are nanoseconds of the steady clock, which does not go
-- back. `int` and `size_t` sums are taken not to overflow, but for the product in
-- `get_number_packet_to_send`. The loss rate, a `double`, is the fraction that it rounds.
pub mod Speed
use multi_threaded_socket.Common.{
  ℕ, zero, suc, ◌+◌, ◌-◌, ◌*◌, ◌/◌, ◌%◌, ◌^◌, min, max, Bool, true, false, List, [], ◌∷◌, ltb, leb,
  ◌==◌, if◌then◌else◌, length, get_or, set,
}

pub record SampleStats : Type 0 where
  pub all_packets : ℕ
  pub lost_packets : ℕ
  pub start : ℕ
  pub finish : ℕ
  pub rtt : ℕ
  pub lost : ℕ × ℕ

abbrev pub min_packets_count : ℕ
min_packets_count = 100

pub calc_stats : SampleStats → SampleStats
calc_stats s = record s { lost = (s.lost_packets * 100, s.all_packets) }

-- The constructor of five arguments
pub sample_stats : ℕ → ℕ → ℕ → ℕ → ℕ → SampleStats
unfolding calc_stats
sample_stats all lost start finish rtt =
    if leb min_packets_count all then calc_stats fresh else fresh
  where
    fresh : SampleStats
    fresh = record {
      all_packets = all;
      lost_packets = lost;
      start = start;
      finish = finish;
      rtt = rtt;
      lost = (0, 1);
    }

-- The mean round trip over the acknowledged packets of both; `_allPackets - _lostPackets` is not
-- negative where no more packets are lost than sent.
abbrev pub merged_rtt : SampleStats → SampleStats → ℕ
merged_rtt s that =
    let that_acknowledged = that.all_packets - that.lost_packets in
    let acknowledged = s.all_packets - s.lost_packets in
    if that_acknowledged == 0
    then s.rtt
    else (s.rtt * acknowledged + that.rtt * that_acknowledged) / (that_acknowledged + acknowledged)

pub merge : SampleStats → SampleStats → SampleStats
unfolding calc_stats
merge s that = if leb min_packets_count merged.all_packets then calc_stats merged else merged
  where
    merged : SampleStats
    merged = record {
      all_packets = s.all_packets + that.all_packets;
      lost_packets = s.lost_packets + that.lost_packets;
      start = min s.start that.start;
      finish = max s.finish that.finish;
      rtt = merged_rtt s that;
      lost = s.lost;
    }

-- The constants `Size`, `DefaultRTT` and `Interval` of TimeRangedStats, and a second
abbrev pub slot_count : ℕ
slot_count = 100

abbrev pub default_rtt : ℕ
default_rtt = 500000000

abbrev pub interval : ℕ
interval = 50000000

abbrev pub second : ℕ
second = 1000000000

pub record TimeRangedStats : Type 0 where
  pub stats : List SampleStats
  pub start_index : ℕ

-- The loop of the constructor: `n` empty slots from a time on.
pub empty_slots : ℕ → ℕ → List SampleStats
unfolding sample_stats
empty_slots zero now = []
empty_slots (suc n) now = sample_stats 0 0 now (now + interval) 0 ∷ empty_slots n (now + interval)

pub time_ranged_stats : ℕ → TimeRangedStats
time_ranged_stats now = record {
  stats = empty_slots slot_count (now / second * second);
  start_index = 0;
}

-- `_stats[i]` of the vector; no index is out of range.
abbrev pub slot : List SampleStats → ℕ → SampleStats
slot stats i = get_or stats i (sample_stats 0 0 0 0 0)

-- The loop that empties slots, `n` rounds from index `i` and time `start_interval` on.
pub clear_slots : ℕ → ℕ → ℕ → List SampleStats → List SampleStats
clear_slots zero i start_interval stats = stats
clear_slots (suc n) i start_interval stats =
    clear_slots n (i + 1) (start_interval + interval)
      (set stats (i % slot_count) (sample_stats 0 0 start_interval (start_interval + interval) 0))

-- The window moves so that the new slot is its last.
pub roll : TimeRangedStats → SampleStats → ℕ → ℕ → ℕ → TimeRangedStats
unfolding merge
roll t s window_start diff slot_index = record {
  stats =
      set cleared (slot_index % slot_count)
        (merge (sample_stats 0 0 slot_start (slot_start + interval) 0) s);
  start_index = new_start_index;
}
  where
    new_start_index : ℕ
    new_start_index = max t.start_index (slot_index - slot_count + 1)

    cleared : List SampleStats
    cleared =
        clear_slots (min (new_start_index - t.start_index) slot_count) t.start_index
          (slot t.stats ((t.start_index + slot_count - 1) % slot_count)).finish t.stats

    slot_start : ℕ
    slot_start = window_start + diff / interval * interval

-- `UpdateStats(const SampleStats&)`
pub update_sample : TimeRangedStats → SampleStats → TimeRangedStats
unfolding roll
update_sample t s =
    let window_start = (slot t.stats (t.start_index % slot_count)).start in
    let diff = s.start - window_start in
    let slot_index = t.start_index + diff / interval in
    if s.all_packets == 0
    then t
    else if ltb s.start window_start
    then t
    else if ltb slot_index (t.start_index + slot_count)
    then record t {
      stats =
          set t.stats (slot_index % slot_count) (merge (slot t.stats (slot_index % slot_count)) s);
    }
    else roll t s window_start diff slot_index

pub add_packet : TimeRangedStats → Bool → ℕ → ℕ → TimeRangedStats
add_packet t lost_packet send_time rtt =
    update_sample t (sample_stats 1 (if lost_packet then 1 else 0) send_time send_time rtt)

update_all : TimeRangedStats → List SampleStats → TimeRangedStats
update_all t [] = t
update_all t (s ∷ ss) = update_all (update_sample t s) ss

-- `UpdateStats(const TimeRangedStats&)`
pub update_stats : TimeRangedStats → TimeRangedStats → TimeRangedStats
unfolding update_all
update_stats t that = update_all t that.stats

count_rtt : List SampleStats → ℕ
count_rtt [] = 0
count_rtt (s ∷ ss) = (if ltb 0 s.rtt then 1 else 0) + count_rtt ss

sum_rtt : List SampleStats → ℕ
sum_rtt [] = 0
sum_rtt (s ∷ ss) = s.rtt + sum_rtt ss

max_rtt : List SampleStats → ℕ
max_rtt [] = 0
max_rtt (s ∷ ss) = max s.rtt (max_rtt ss)

pub get_average_rtt : TimeRangedStats → ℕ
get_average_rtt t =
    if ltb (count_rtt t.stats) 20 then default_rtt else sum_rtt t.stats / count_rtt t.stats

pub get_max_rtt : TimeRangedStats → ℕ
get_max_rtt t = if ltb (count_rtt t.stats) 20 then default_rtt else max_rtt t.stats

-- SpeedController, in the state Stable, which the constructor chooses and nothing changes.
pub record SpeedController : Type 0 where
  pub last_send : ℕ
  pub stats : TimeRangedStats
  pub real_speed : ℕ
  pub min_speed : ℕ
  pub max_speed : ℕ
  pub number : ℕ

-- ConnectionContext: the settings of a connection, and their subscriber's reaction to a change.
pub data Settings : Type 0 where
  max_speed_key min_speed_key max_key : Settings

pub record ConnectionContext : Type 0 where
  pub max_speed_setting : ℕ
  pub min_speed_setting : ℕ

pub new_context : ConnectionContext
new_context = record { max_speed_setting = 2 ^ 64 - 1; min_speed_setting = 0 }

pub on_settings_changed : SpeedController → Settings → ℕ → SpeedController
on_settings_changed c min_speed_key value = record c { min_speed = value }
on_settings_changed c max_speed_key value = record c { max_speed = value }
on_settings_changed c max_key value = c

-- The constructor subscribes, which reports every setting to it.
pub speed_controller : ConnectionContext → ℕ → SpeedController
unfolding on_settings_changed
speed_controller context now =
    on_settings_changed (on_settings_changed fresh max_speed_key context.max_speed_setting)
      min_speed_key context.min_speed_setting
  where
    fresh : SpeedController
    fresh = record {
      last_send = now;
      stats = time_ranged_stats now;
      real_speed = 0;
      min_speed = 0;
      max_speed = 0;
      number = 0;
    }

-- `StableState::Run`
abbrev pub stable_speed : ℕ
stable_speed = 100000

-- `std::clamp`
pub clamp : ℕ → ℕ → ℕ → ℕ
clamp v lo hi = if ltb v lo then lo else if ltb hi v then hi else v

-- The number, and the new state, at the time `now`.
pub get_number_packet_to_send : SpeedController → ℕ → ℕ × SpeedController
unfolding clamp
get_number_packet_to_send c now =
    let diff = now - c.last_send in
    let coefficient = 100 * second / diff in
    let speed = clamp stable_speed c.min_speed c.max_speed in
    let number = speed * (second / interval) * 100 % 2 ^ 64 / coefficient in
    if ltb diff (interval / 2)
    then (c.number, c)
    else if coefficient == 0
    then (0, record c { real_speed = stable_speed })
    else (
      number,
      record c {
        real_speed = stable_speed;
        number = number;
        last_send = if number == 0 then c.last_send else now;
      },
    )

pub revert_number_packet_to_send : SpeedController → ℕ → SpeedController
revert_number_packet_to_send c number = record c { number = number }

pub update_speed_stats : SpeedController → TimeRangedStats → SpeedController
update_speed_stats c stats = record c { stats = update_stats c.stats stats }

pub get_timeout : SpeedController → ℕ
get_timeout c = get_max_rtt c.stats + 50000000
