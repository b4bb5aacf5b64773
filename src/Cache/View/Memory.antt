-- ===== src/Cache/View/Memory.antt =====
-- The values of a cache in its memory.
use native.Mathlib.Nat.{mul-le-mul_right}
use upsgi.Common.{
  ℕ, zero, suc, ◌+◌, ◌-◌, ◌*◌, ◌≤◌, ◌<◌, ◌≡◌, ◌≢◌, ◌⊎◌, refl, ap, sym, ◌∙◌, arith, List, [], ◌∷◌,
  length, get_or,
}
use mathlib.Core.Path.{subst}
use upsgi.Cache.Items.{Settings, Item, Cache}
use upsgi.Cache.Ops.{read_bytes, write_bytes}
use upsgi.Cache.View.{entry_of, IsCache}

-- a write elsewhere is not seen
pub read_bytes-elsewhere :
    (address : ℕ) (bytes : List ℕ) (memory : ℕ → ℕ) (a n : ℕ)
    → (a + n ≤ address) ⊎ (address + length bytes ≤ a)
    → read_bytes (write_bytes address bytes memory) a n ≡ read_bytes memory a n
unfolding read_bytes write_bytes
read_bytes-elsewhere address bytes memory a zero h = refl
read_bytes-elsewhere address bytes memory a (suc n) h =
    let here : write_bytes address bytes memory a ≡ memory a = ground (arith, h) in
    ap (λ x. x ∷ read_bytes (write_bytes address bytes memory) (a + 1) n) here
    ∙ ap (λ l. memory a ∷ l)
        (read_bytes-elsewhere address bytes memory (a + 1) n (ground (arith, h)))

read_bytes-get_or :
    (address : ℕ) (bytes : List ℕ) (memory : ℕ → ℕ)
    → ((k : ℕ) → k < length bytes → memory (address + k) ≡ get_or bytes k 0)
    → read_bytes memory address (length bytes) ≡ bytes
unfolding read_bytes
read_bytes-get_or address [] memory h = refl
read_bytes-get_or address (c ∷ bytes) memory h =
    let here : memory address ≡ c =
      ap memory {x = address} {y = address + 0} (omega arith) ∙ h 0 (omega arith) in
    ap (λ x. x ∷ read_bytes memory (address + 1) (length bytes)) here
    ∙ ap (λ l. c ∷ l)
        (read_bytes-get_or (address + 1) bytes memory (λ k low.
          ap memory {x = address + 1 + k} {y = address + suc k} (omega arith)
          ∙ h (suc k) (omega arith)))

-- what is written is read
pub read_bytes-write_bytes :
    (address : ℕ) (bytes : List ℕ) (memory : ℕ → ℕ)
    → read_bytes (write_bytes address bytes memory) address (length bytes) ≡ bytes
unfolding read_bytes write_bytes
read_bytes-write_bytes address bytes memory =
    read_bytes-get_or address bytes (write_bytes address bytes memory) (λ k low.
      let same : address + k - address ≡ k = omega arith in
      ground (arith, low, ap (λ i. get_or bytes i 0) same))

-- the blocks of different items do not meet
pub blocks_apart :
    (blocksize i j m n : ℕ)
    → i ≢ j
    → m ≤ blocksize
    → n ≤ blocksize
    → (j * blocksize + n ≤ i * blocksize) ⊎ (i * blocksize + m ≤ j * blocksize)
blocks_apart blocksize i j m n ne hm hn = ground (
  arith,
  mul-le-mul_right {m = suc i} {n = j} blocksize,
  mul-le-mul_right {m = suc j} {n = i} blocksize,
)

-- a value written to the block of one item is not seen in the entry of another
pub entry_of-elsewhere :
    (o : Settings) (i j : ℕ) (val : List ℕ) (c : Cache) (memory : ℕ → ℕ)
    → IsCache o c
    → j ≢ 0
    → 0 < (c.items j).keysize
    → i ≢ j
    → length val ≤ o.blocksize
    → memory ≡ write_bytes (i * o.blocksize) val c.memory
    → entry_of o memory (c.items j) ≡ entry_of o c.memory (c.items j)
entry_of-elsewhere o i j val c memory v nz live ne fits e =
    let x = c.items j in
    let apart = blocks_apart o.blocksize i j (length val) x.valsize ne fits (v.size j nz live) in
    let read : read_bytes memory (x.first_block * o.blocksize) x.valsize
        ≡ read_bytes c.memory (x.first_block * o.blocksize) x.valsize =
      ap (λ m. read_bytes m (x.first_block * o.blocksize) x.valsize) e
      ∙ read_bytes-elsewhere (i * o.blocksize) val c.memory (x.first_block * o.blocksize) x.valsize
          (subst
            (λ b.
              (b * o.blocksize + x.valsize ≤ i * o.blocksize)
              ⊎ (i * o.blocksize + length val ≤ b * o.blocksize))
            (sym (v.place j nz live)) apart) in
    ap (λ value. record { flags = x.flags; expires = x.expires; value = value }) read

-- the value at the block of an item
pub entry_of-written :
    (o : Settings) (i : ℕ) (val : List ℕ) (x : Item) (memory memory' : ℕ → ℕ)
    → x.first_block ≡ i
    → x.valsize ≡ length val
    → memory' ≡ write_bytes (i * o.blocksize) val memory
    → entry_of o memory' x ≡ record { flags = x.flags; expires = x.expires; value = val }
entry_of-written o i val x memory memory' block size e =
    ap (λ value. record { flags = x.flags; expires = x.expires; value = value })
      (ap (λ b. read_bytes memory' (b * o.blocksize) x.valsize) block
        ∙ ap (λ s. read_bytes memory' (i * o.blocksize) s) size
        ∙ ap (λ m. read_bytes m (i * o.blocksize) (length val)) e
        ∙ read_bytes-write_bytes (i * o.blocksize) val memory)
