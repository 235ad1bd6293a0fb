-- ===== src/Devices/IoExpand.antt =====
-- The I/O expander (ioexpand.c): 16 devices of 8 bytes each in one unit of the bus. The devices behind
-- it and `sim_error` are parameters.
use exec.Base.{
  ℕ, zero, suc, ◌+◌, ◌*◌, ◌/◌, ◌%◌, ◌<◌, ◌≡◌, refl, ◌∙◌, ap, arith, Option, none, some, List,
  get_elem?, set, length, get_elem?-set_self, replicate, get_elem?-some,
}
use exec.Base.Run.{M, done, undefined, ◌>>=◌, ◌>>◌, pure, go_on}

abbrev pub nr_ioexpand : ℕ
nr_ioexpand = 16

abbrev pub io_window : ℕ
io_window = 8

-- `struct ioexpand`; a device is named by a number, `none` stands for NULL.
pub record IoExpand : Type 0 where
  pub ios : List (Option ℕ)

-- The calls through `class_ptr`.
pub record IoDevices (S : Type 0) : Type 0 where
  pub reset : ℕ → M S (Unit {0})
  pub read : ℕ → ℕ → M S ℕ
  pub write : ℕ → ℕ → ℕ → M S (Unit {0})
  pub sim_error : M S (Unit {0})

-- What `ioexpand_create` sets up.
abbrev pub ioexpand_create : IoExpand
ioexpand_create = record { ios = replicate nr_ioexpand none }

-- A slot outside the table is undefined.
unfoldable pub ioexpand_attach : ℕ → ℕ → IoExpand → Option IoExpand
ioexpand_attach slot io_dev iom = elim (get_elem? iom.ios slot) [
  | none ↦ none
  | some _ ↦ some (record { ios = set iom.ios slot (some io_dev) })
]

module _ {S : Type 0} (devices : IoDevices S) (iom : IoExpand) where
  -- The loop of `ioexpand_reset`, with `count` slots left.
  unfoldable pub ioexpand_reset_loop : ℕ → ℕ → M S (Unit {0})
  ioexpand_reset_loop zero i = pure tt
  ioexpand_reset_loop (suc count) i =
      elim (get_elem? iom.ios i) [
        | none ↦ λ s. undefined
        | some entry ↦ elim entry [ none ↦ pure tt | some dev ↦ devices.reset dev ]
      ]
      >> ioexpand_reset_loop count (i + 1)

  unfoldable pub ioexpand_reset : M S (Unit {0})
  unfolding ioexpand_reset_loop
  ioexpand_reset = ioexpand_reset_loop nr_ioexpand 0

  -- The device at an address; without one `sim_error` is called, and the null pointer is then used.
  unfoldable pub backing_device : ℕ → M S ℕ
  backing_device addr = elim (get_elem? iom.ios (addr / io_window)) [
    | none ↦ λ s. undefined
    | some entry ↦ elim entry [ none ↦ devices.sim_error >> (λ s. undefined) | some dev ↦ pure dev ]
  ]

  unfoldable pub ioexpand_read : ℕ → M S ℕ
  unfolding backing_device
  ioexpand_read addr = do dev ← backing_device addr; devices.read dev (addr % io_window)

  unfoldable pub ioexpand_write : ℕ → ℕ → M S (Unit {0})
  unfolding backing_device
  ioexpand_write addr val = do dev ← backing_device addr; devices.write dev (addr % io_window) val

-- The slots after a device is attached.
attach-slot :
    (iom : IoExpand) (slot dev : ℕ)
    → slot < length iom.ios
    → (after : IoExpand) × (ioexpand_attach slot dev iom ≡ some after)
      × (get_elem? after.ios slot ≡ some (some dev))
unfolding ioexpand_attach
attach-slot iom slot dev lt =
    let (old, here) = get_elem?-some iom.ios slot lt in
    (
      record { ios = set iom.ios slot (some dev) },
      rw (here, ioexpand_attach) refl,
      get_elem?-set_self iom.ios slot (some dev) lt,
    )

module _ {S : Type 0} (devices : IoDevices S) (iom : IoExpand) where
  backing_device-done :
      (slot k dev : ℕ) (s : S)
      → k < 8
      → get_elem? iom.ios slot ≡ some (some dev)
      → backing_device devices iom (slot * 8 + k) s ≡ done dev s
  unfolding backing_device
  backing_device-done slot k dev s lt here =
      let at : (slot * 8 + k) / 8 ≡ slot = omega arith in
      rw (ap (λ (i : ℕ). get_elem? iom.ios i) at ∙ here, backing_device) refl

-- For a slot of the table and an offset below 8: `ioexpand_attach` succeeds, and a read and a
-- write through the expander, at the offset in the slot, are then those of the device that was
-- attached, at the offset.
pub ioexpand_read-ioexpand_attach :
    {S : Type 0} (devices : IoDevices S) (iom : IoExpand) (slot dev k val : ℕ) (s : S)
    → slot < length iom.ios
    → k < 8
    → (after : IoExpand) × (ioexpand_attach slot dev iom ≡ some after)
      × (ioexpand_read devices after (slot * 8 + k) s ≡ devices.read dev k s)
      × (ioexpand_write devices after (slot * 8 + k) val s ≡ devices.write dev k val s)
unfolding ioexpand_read ioexpand_write
ioexpand_read-ioexpand_attach devices iom slot dev k val s lt small =
    let (after, ran, here) = attach-slot iom slot dev lt in
    let within : (slot * 8 + k) % 8 ≡ k = omega arith in
    (
      after,
      ran,
      go_on _ _ (backing_device-done devices after slot k dev s small here)
          (ap (λ n. devices.read dev n s) within),
      go_on _ _ (backing_device-done devices after slot k dev s small here)
          (ap (λ n. devices.write dev n val s) within),
    )
