-- ===== src/Store/Disk/Laws.antt =====
-- What the loops that load and save the tables leave on the disk and in memory.
use shahi_n_kernel.Prelude.{
  ℕ, zero, suc, ◌+◌, ◌-◌, ◌*◌, ◌/◌, ◌%◌, ◌≤◌, ◌<◌, ◌≡◌, ◌⊎◌, refl, sym, ap, ltb, if◌then◌else◌,
  arith,
}
use shahi_n_kernel.Store.Disk.{
  Bytes, sector_size, read_sector, write_sector, load_sectors, save_sectors,
}

-- A saved sector holds its part of the table.
pub save_sectors-inside :
    (n base s j : ℕ) (mem : Bytes) (disk : ℕ → Bytes)
    → s < n
    → j < sector_size
    → save_sectors n base mem disk (base + s) j ≡ mem (s * sector_size + j)
unfolding save_sectors write_sector
save_sectors-inside zero base s j mem disk h hj = absurd (omega arith)
save_sectors-inside (suc n) base s j mem disk h hj =
    let before = λ (l : s < n). save_sectors-inside n base s j mem disk l hj in
    let last = λ (e : s ≡ n). ap (λ t. mem (t * sector_size + j)) (sym e) in
    ground (arith, before, last)

-- No other sector changes.
pub save_sectors-outside :
    (n base s j : ℕ) (mem : Bytes) (disk : ℕ → Bytes)
    → s < base ⊎ base + n ≤ s
    → save_sectors n base mem disk s j ≡ disk s j
unfolding save_sectors write_sector
save_sectors-outside zero base s j mem disk h = refl
save_sectors-outside (suc n) base s j mem disk h =
    let before = λ (l : s < base ⊎ base + n ≤ s). save_sectors-outside n base s j mem disk l in
    ground (arith, before, h)

in_last_sector :
    (n base a : ℕ) (disk : ℕ → Bytes)
    → n * sector_size ≤ a
    → a < n * sector_size + sector_size
    → disk (base + a / sector_size) (a % sector_size) ≡ disk (base + n) (a - n * sector_size)
in_last_sector n base a disk lo hi =
    let sector : a / sector_size ≡ n = omega arith in
    let offset : a % sector_size ≡ a - n * sector_size = omega arith in rw sector (rw offset refl)

-- What is loaded of the first `n` sectors.
pub load_sectors_lem :
    (n base a : ℕ) (disk : ℕ → Bytes) (mem : Bytes)
    → load_sectors n base disk mem a
      ≡ (if ltb a (n * sector_size) then disk (base + a / sector_size) (a % sector_size) else mem a)
unfolding load_sectors read_sector
load_sectors_lem zero base a disk mem = ground arith
load_sectors_lem (suc n) base a disk mem =
    let before = load_sectors_lem n base a disk mem in
    let last = in_last_sector n base a disk in ground (arith, before, last)

-- A table that is saved and loaded again is, in its saved part, what it was, whatever the memory
-- held meanwhile.
pub load-save :
    (n base a : ℕ) (disk : ℕ → Bytes) (mem mem' : Bytes)
    → a < n * sector_size
    → load_sectors n base (save_sectors n base mem disk) mem' a ≡ mem a
load-save n base a disk mem mem' h =
    let loaded = load_sectors_lem n base a (save_sectors n base mem disk) mem' in
    let saved =
      save_sectors-inside n base (a / sector_size) (a % sector_size) mem disk (omega arith)
        (omega arith) in
    let place : a / sector_size * sector_size + a % sector_size ≡ a = omega arith in
    let there = ap mem place in ground (arith, loaded, saved, there)
