-- ===== src/Tests/Recovered.antt =====
-- Tests of a restart on a storage that holds a map and a checkpoint.
use armored_witness_applet.Persistence.Recovered.{init-IsServed}
use armored_witness_applet.Persistence.Blank.{IsRoom}
use armored_witness_applet.Prelude.{◌≡◌, refl, inr, [], ◌∷◌, false, arith, replicate, none, true}
use armored_witness_applet.Result.{ok}
use armored_witness_applet.Journal.{Journal}
use armored_witness_applet.Journal.Update.{current_data}
use armored_witness_applet.MemDev.{mem_dev}
use armored_witness_applet.MemDev.Loops.{content}
use armored_witness_applet.Slot.{Slot}
use armored_witness_applet.Slot.Settled.{IsSettled}
use armored_witness_applet.Slots.{num_slots, Partition}
use armored_witness_applet.Persistence.Directory.{init, free_list, mark}
use armored_witness_applet.Persistence.Checkpoints.{slot_of}
use armored_witness_applet.Persistence.Served.{IsServed, started}
use armored_witness_applet.Tests.{limit}
use armored_witness_applet.Tests.Logs.{map_codec}
use armored_witness_applet.Tests.Restart.{map_journal, map_slot, two_slots, log_known, no_slot_left}
use armored_witness_applet.Tests.Torn.{
  torn_dev, tear_digest, old_journal, old_slot, disk, map_slot-IsSettled, old_slot-IsSettled, laws,
  disk-IsStorage,
}

-- The same storage after a restart
abbrev closed : Slot → Slot
closed x = record x { journal = none }

abbrev part : Partition
part = record { slots = closed map_slot ∷ closed old_slot ∷ [] }

abbrev closed-IsSettled :
    (x : Slot) (j : Journal)
    → IsSettled torn_dev 6 content tear_digest limit disk x j
    → IsSettled torn_dev 6 content tear_digest limit disk (closed x) j
closed-IsSettled x j y = record {
  start = y.start;
  extent = y.extent;
  inside = y.inside;
  fits = y.fits;
  small = y.small;
  max = y.max;
  written = y.written;
  stops = y.stops;
}

two_parts :
    free_list (num_slots part) (mark (replicate (num_slots part) false) two_slots.per.id_to_slot)
    ≡ ok []
unfolding num_slots
two_parts = no_slot_left

old_slot-IsRoom : IsRoom torn_dev.block_size 6 (closed old_slot)
unfolding mem_dev
old_slot-IsRoom = record {
  inside = omega arith;
  fits = omega arith;
  small = omega arith;
  extent_small = omega arith;
  headers = omega arith;
}

init-IsServed_example :
    let (r, w) = init torn_dev tear_digest limit map_codec (started part disk) in
    (r ≡ ok tt)
    × ((slot_of torn_dev tear_digest limit map_codec "a" true w).0 ≡ ok 1)
    × ((x' y' : Slot) × (j' : Journal) × IsServed torn_dev 6 content tear_digest limit map_codec
          (slot_of torn_dev tear_digest limit map_codec "a" true w).1
          "a"
          1
          x'
          y'
          j'
          map_journal
        × (current_data j' ≡ current_data old_journal))
init-IsServed_example =
    init-IsServed laws tear_digest limit map_codec part disk disk-IsStorage "a" 1 (closed old_slot)
      (closed map_slot) old_journal map_journal two_slots.per.id_to_slot [] refl refl
      (closed-IsSettled map_slot map_journal map_slot-IsSettled) refl two_parts log_known refl refl
      (closed-IsSettled old_slot old_journal old_slot-IsSettled) old_slot-IsRoom (inr (omega arith))
