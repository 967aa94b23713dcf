-- ===== src/Tests/Partitions.antt =====
-- Tests of partitions and slots.
use armored_witness_applet.Prelude.{
  ℕ, ◌+◌, ◌≤◌, ◌≡◌, refl, List, [], ◌∷◌, arith, replicate, map, none, some, get_elem?, ◌++◌,
  put_uint32, put_uint64, get_uint,
}
use armored_witness_applet.Result.{ok, err, panic, invalid_token, syscall_failed, same_revision}
use armored_witness_applet.Device.{Device}
use armored_witness_applet.Journal.{magic0}
use armored_witness_applet.Journal.Open.{open_journal, init, scan, scan_round, scan_entry}
use armored_witness_applet.Journal.BlockReader.{
  new_block_reader, fill, read as read_some, read_full,
}
use armored_witness_applet.Journal.Record.{unmarshal_entry, marshal_entry, make_bytes}
use armored_witness_applet.Journal.RoundTrip.{encode}
use armored_witness_applet.Journal.Update.{update, write_block, write_entry, finish_update}
use armored_witness_applet.MemDev.{
  Storage, mem_dev, read_blocks, read_loop, write_blocks, write_loop, pad,
}
use armored_witness_applet.Slot.{Slot, read, check_and_write}
use armored_witness_applet.Slot.Versions.{check_and_write_twice}
use armored_witness_applet.Slots.{Partition, open_partition, open_slot, lay_out, erase}
use armored_witness_applet.Slots.Lengths.{Geometry, validate, total}
use armored_witness_applet.Slots.Layout.{open_partition-apart}
use armored_witness_applet.Slots.Erasing.{closed, erase-failing, open_slot-corrupt}
use armored_witness_applet.Startup.{slots_partition_start_block, open_storage, open_storage_lem}
use armored_witness_applet.Tests.{digest, limit, empty_block, empty_disk, payload, new_journal}

abbrev geometry : Geometry
geometry = record { start = 1; extent = 8; slot_lengths = 3 ∷ 4 ∷ [] }

abbrev first_slot : Slot
first_slot = record { start = 1; extent = 3; journal = none }

abbrev second_slot : Slot
second_slot = record { start = 4; extent = 4; journal = none }

abbrev partition : Partition
partition = record { slots = first_slot ∷ second_slot ∷ [] }

partition_opens : open_partition geometry ≡ ok partition
unfolding open_partition validate total lay_out
partition_opens = refl

open_partition-apart_example : (1 ≤ 1) × (1 + 3 ≤ 4) × (4 + 4 ≤ 1 + 8)
open_partition-apart_example =
    open_partition-apart geometry partition 0 1 first_slot second_slot (omega arith) (omega arith)
      partition_opens (omega arith) refl refl

abbrev open_slot_of_disk : Slot
open_slot_of_disk = record { start = 0; extent = 3; journal = some new_journal }

disk_read : read open_slot_of_disk ≡ ok ([], 0)
unfolding read
disk_read = refl

disk_write : (check_and_write mem_dev digest empty_disk open_slot_of_disk 0 payload).0 ≡ ok tt
unfolding check_and_write update write_entry finish_update write_block marshal_entry mem_dev
    write_blocks write_loop pad put_uint32 put_uint64
disk_write = refl

check_and_write_twice_example :
    let (_, x', s') = check_and_write mem_dev digest empty_disk open_slot_of_disk 0 payload in
    (read x' ≡ ok (payload, 1))
    × (check_and_write mem_dev digest s' x' 0 [] ≡ (err invalid_token, x', s'))
check_and_write_twice_example =
    check_and_write_twice mem_dev digest empty_disk open_slot_of_disk payload [] [] 0 disk_read
      disk_write

abbrev stuck : Device Storage
stuck = record mem_dev { write_blocks = λ st lba b. (err syscall_failed, st) }

erase-failing_example :
    erase stuck empty_disk partition
    ≡ (ok tt, record { slots = map closed partition.slots }, empty_disk)
erase-failing_example = erase-failing stuck syscall_failed empty_disk partition (λ lba b. refl)

-- Two records of one revision behind each other
abbrev one_block : List ℕ
one_block =
    encode (record {
      magic = magic0;
      revision = 1;
      data_len = 2;
      data_sha256 = replicate 32 7;
      bytes = payload;
    })
    ++ replicate 462 0

abbrev corrupt_disk : Storage
corrupt_disk = one_block ∷ one_block ∷ empty_block ∷ []

abbrev shut_slot : Slot
shut_slot = record { start = 0; extent = 3; journal = none }

corrupt_journal : open_journal mem_dev digest limit corrupt_disk 0 3 ≡ err same_revision
unfolding open_journal init scan scan_round scan_entry mem_dev read_blocks read_loop
    new_block_reader fill read_some read_full unmarshal_entry make_bytes put_uint32 put_uint64
    get_uint
corrupt_journal = refl

open_slot-corrupt_example :
    let opened =
      open_slot mem_dev digest limit corrupt_disk (record { slots = shut_slot ∷ [] }) 0 in
    (opened.0 ≡ ok 0) × (y : Slot) × (get_elem? opened.1.slots 0 ≡ some y) × (read y ≡ panic)
open_slot-corrupt_example =
    open_slot-corrupt mem_dev digest limit same_revision corrupt_disk
      (record { slots = shut_slot ∷ [] }) 0 shut_slot refl refl corrupt_journal

open_storage_lem_example :
    open_storage 4096 512
    ≡ ok (record { slots = lay_out slots_partition_start_block (replicate 4096 1024) })
open_storage_lem_example = open_storage_lem 512 4096 (omega arith) (omega arith)
