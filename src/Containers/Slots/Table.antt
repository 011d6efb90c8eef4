-- ===== src/Containers/Slots/Table.antt =====
-- The table as a khash: nothing ever fails.
use atx_sys.Common.{refl, [], length}
use atx_sys.Containers.{Khash}
use atx_sys.Containers.Slots.{
  Slots, slot, lives, key_of, val_of, count_lives, find, set_slot, empty_slot, put_slot,
  AreDistinct,
}
use atx_sys.Containers.Slots.Find.{find-key, find-bucket}
use atx_sys.Containers.Slots.Put.{AreDistinct-put_slot, find-put_slot, find-put_other}
use atx_sys.Containers.Slots.Change.{
  length-set_slot, find-set_slot, AreDistinct-set_slot, val-set_slot, AreDistinct-empty_slot,
  find-del_other,
}

module _ {V : Type 0} (d : V) where
  -- The buckets of a list as a khash: nothing ever fails.
  abbrev pub slots : Khash V
  slots = record {
    Hash = Slots V;
    init = [];
    end_of = length;
    exist = λ h i. lives (slot h i);
    key = λ h i. key_of (slot h i);
    val = λ h i. val_of d (slot h i);
    size = count_lives;
    get = find;
    put = put_slot d;
    set_val = set_slot;
    del = empty_slot;
    IsTable = AreDistinct;
    init-IsTable = tt;
    end-init = refl;
    put-IsTable = AreDistinct-put_slot d;
    set_val-IsTable = AreDistinct-set_slot;
    del-IsTable = AreDistinct-empty_slot;
    get-key = λ h k t. find-key h k;
    get-bucket = find-bucket;
    get-put = λ h k t fine. find-put_slot d h k;
    put-other = λ h k j t fine. find-put_other d h k j;
    get-set_val = find-set_slot;
    end-set_val = length-set_slot;
    val-set_val = val-set_slot d;
    del-other = find-del_other d;
  }
