-- ===== src/RegFile/Region.antt =====
-- `MemoryRegionStatBuilder` of core_sim/src/reg_file.rs. Addresses are in words.
use cpuex2022_7_simulator.Common.{ℕ, ltb, leb, if◌then◌else◌, wrapping_sub}

pub data MemoryRegion : Type 0 where
  data_section heap stack : MemoryRegion

pub record MemoryRegionStatBuilder : Type 0 where
  pub hp_min : ℕ
  pub sp_min : ℕ
  pub sp_max : ℕ

pub record MemoryRegionStat : Type 0 where
  pub hp_min : ℕ
  pub hp_max : ℕ
  pub sp_min : ℕ
  pub sp_max : ℕ

unfoldable pub init : ℕ → ℕ → MemoryRegionStatBuilder → MemoryRegionStatBuilder
init hp_min sp_max b = record b { hp_min = hp_min; sp_max = sp_max; sp_min = sp_max }

unfoldable pub update_sp : ℕ → MemoryRegionStatBuilder → MemoryRegionStatBuilder
update_sp value b = if ltb value b.sp_min then record b { sp_min = value } else b

unfoldable pub finish : ℕ → MemoryRegionStatBuilder → MemoryRegionStat
finish hp_max b = record {
  hp_min = b.hp_min;
  hp_max = hp_max;
  sp_min = b.sp_min;
  sp_max = b.sp_max;
}

-- `self.sp_min - 1000` wraps.
unfoldable pub get_region : ℕ → MemoryRegionStatBuilder → MemoryRegion
get_region addr b =
    if ltb addr b.hp_min
    then MemoryRegion.data_section
    else if leb (wrapping_sub b.sp_min 1000) addr
    then MemoryRegion.stack
    else MemoryRegion.heap
