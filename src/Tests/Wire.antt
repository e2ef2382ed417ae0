-- ===== src/Tests/Wire.antt =====
-- A device that answers control transactions, and the register access over it.
use base_t1s.Prelude.{
  ℕ, ◌+◌, ◌*◌, ◌%◌, ◌^◌, ◌<◌, Bool, true, false, List, ◌++◌, ok, ◌≡◌, refl, ap, ◌∙◌, arith, length,
  take, drop, length-take, length-append, take-append, drop-append, take_all, ◌==◌, some, replicate,
}
use base_t1s.Word.{bit_get, field_get, to_be32, from_be32}
use base_t1s.Tests.Inputs.{queued_on, queued_on-HasBuffers}
use base_t1s.Tests.Registers.{kept}
use base_t1s.Tc6.State.{Tc6, Platform, SpiReply}
use base_t1s.Tc6.Ctrl.{ctrl_reg_read, ctrl_reg_write, read_register, write_register}
use base_t1s.Tc6.Bus.Laws.{put}
use base_t1s.Tc6.Bus.Device.{ControlDevice, IsRequest}
use base_t1s.Tc6.Bus.Device.Access.{write_register-read_register}

abbrev address_of : ℕ → ℕ
address_of w = field_get 27 24 w * 2 ^ 16 + field_get 23 8 w

-- Whether the request is a write, and the answer to it.
abbrev serve : Bool → (ℕ → ℕ) → List ℕ → SpiReply × (ℕ → ℕ)
serve true g sent = (
  record { status = 0; bytes = replicate 4 0 ++ take 8 sent },
  put g (address_of (from_be32 (take 4 sent))) (from_be32 (take 4 (drop 4 sent))),
)
serve false g sent = (
  record {
    status = 0;
    bytes =
        replicate 4 0
        ++ (take 4 sent ++ to_be32 (g (address_of (from_be32 (take 4 sent))) % 2 ^ 32));
  },
  g,
)

abbrev wire : Platform (ℕ → ℕ)
wire = record {
  spi_sync = λ g sent. serve (bit_get 29 (from_be32 (take 4 sent)) == 1) g sent;
  alloc_skb = λ g n. (some 2000, g);
  skb_linearize = λ g b. (0, g);
  eth_type_trans = λ s. s;
}

wire_read :
    (g : ℕ → ℕ) (a : ℕ) (sent : List ℕ)
    → Unit {0}
    → a < 2 ^ 20
    → length sent ≡ 12
    → IsRequest ctrl_reg_read a (from_be32 (take 4 sent))
    → (r : List ℕ) × (g' : ℕ → ℕ) × (wire.spi_sync g sent ≡ (record { status = 0; bytes = r }, g'))
      × (length r ≡ 12)
      × (take 4 (drop 4 r) ≡ take 4 sent)
      × (take 4 (drop 8 r) ≡ to_be32 (g a % 2 ^ 32))
      × Unit {0}
      × ((b : ℕ) → g' b % 2 ^ 32 ≡ g b % 2 ^ 32)
wire_read g a sent up lt long (wl, ctl, op, addr, one, odd) =
    let w = from_be32 (take 4 sent) in
    let value = to_be32 (g (address_of w) % 2 ^ 32) in
    let four : length (take 4 sent) ≡ 4 = omega (arith, length-take 4 sent) in
    let read : bit_get 29 w == 1 ≡ false = ground arith in
    (
      replicate 4 0 ++ (take 4 sent ++ value),
      g,
      ap (λ b. serve b g sent) read,
      omega (arith, length-append (take 4 sent) value),
      take-append 4 (take 4 sent) value four,
      drop_value four ∙ ap (λ x. to_be32 (g x % 2 ^ 32)) addr,
      tt,
      λ b. refl,
    )
  where
    drop_value :
        length (take 4 sent) ≡ 4
        → take 4 (
            drop 8 (
              replicate 4 0
              ++ (take 4 sent ++ to_be32 (g (address_of (from_be32 (take 4 sent))) % 2 ^ 32))))
          ≡ to_be32 (g (address_of (from_be32 (take 4 sent))) % 2 ^ 32)
    drop_value four =
        ap (λ l. take 4 l)
          (drop-append 4 0 (take 4 sent)
            (to_be32 (g (address_of (from_be32 (take 4 sent))) % 2 ^ 32)) four)

wire_write :
    (g : ℕ → ℕ) (a : ℕ) (sent : List ℕ)
    → Unit {0}
    → a < 2 ^ 20
    → length sent ≡ 12
    → IsRequest ctrl_reg_write a (from_be32 (take 4 sent))
    → from_be32 (take 4 (drop 4 sent)) < 2 ^ 32
    → (r : List ℕ) × (g' : ℕ → ℕ) × (wire.spi_sync g sent ≡ (record { status = 0; bytes = r }, g'))
      × (length r ≡ 12)
      × (take 8 (drop 4 r) ≡ take 8 sent)
      × Unit {0}
      × ((b : ℕ) → g' b % 2 ^ 32 ≡ put (λ c. g c % 2 ^ 32) a (from_be32 (take 4 (drop 4 sent))) b)
wire_write g a sent up lt long (wl, ctl, op, addr, one, odd) small =
    let w = from_be32 (take 4 sent) in
    let v = from_be32 (take 4 (drop 4 sent)) in
    let write : bit_get 29 w == 1 ≡ true = ground arith in
    let eight : length (take 8 sent) ≡ 8 = omega (arith, length-take 8 sent) in
    (
      replicate 4 0 ++ take 8 sent,
      put g (address_of w) v,
      ap (λ b. serve b g sent) write,
      omega arith,
      take_all 8 (take 8 sent) (omega arith),
      tt,
      λ b. ap (λ x. put g x v b % 2 ^ 32) addr ∙ kept g a v b small,
    )

abbrev wire_device : ControlDevice wire
wire_device = record {
  get = λ g a. g a % 2 ^ 32;
  IsReady = λ g. Unit {0};
  IsPlain = λ a. a < 2 ^ 20;
  get-lt = λ g a h. omega arith;
  address-lt = λ a h. h;
  read_transfer = wire_read;
  write_transfer = wire_write;
}

abbrev wired : Tc6 (ℕ → ℕ)
wired = queued_on (λ _. 0)

write_register-read_register_example :
    (t1 : Tc6 (ℕ → ℕ)) × (t2 : Tc6 (ℕ → ℕ)) × (write_register wire 0x10022 0xdeadbeef wired
      ≡ (ok tt, t1))
    × (read_register wire 0x10022 t1 ≡ (ok 0xdeadbeef, t2))
    × ((b : ℕ) → t2.dev b % 2 ^ 32 ≡ put (λ c. wired.dev c % 2 ^ 32) 0x10022 0xdeadbeef b)
write_register-read_register_example =
    write_register-read_register wire_device wired 0x10022 0xdeadbeef
      (queued_on-HasBuffers (λ _. 0), tt) (omega arith) (omega arith)
