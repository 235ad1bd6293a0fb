-- ===== src/Machine/Rom.antt =====
-- What `rom_create` loads (machine.c): the image of the file, over and over.
use exec.Base.{
  ℕ, zero, suc, ◌+◌, ◌*◌, ◌^◌, ◌<◌, ◌≤◌, ◌≡◌, refl, sym, ◌∙◌, ap, arith, Bool, true, false, Option,
  none, some, List, [], ◌∷◌, ◌++◌, length, leb, ◌==◌, if◌then◌else◌, drop,
}
use exec.Base.Word.{sub32}

-- The loop of `rom_create`. `loaded` is what is written of the buffer of `size` bytes, whose last
-- `image_size` bytes start at `buf`; `none` is a write past the buffer, or a loop of more than `fuel`
-- rounds.
unfoldable pub repeat_image : ℕ → ℕ → ℕ → ℕ → ℕ → List ℕ → Option (List ℕ)
repeat_image zero size image_size buf maxsize loaded = none
repeat_image (suc fuel) size image_size buf maxsize loaded =
    let rest =
      repeat_image fuel size image_size (buf + image_size) (sub32 maxsize image_size)
        (loaded ++ drop buf loaded) in
    if maxsize == 0
    then some loaded
    else if leb (buf + image_size + image_size) size
    then rest
    else none

-- The buffer of `rom_create`, with the bytes of the file. More than `size` rounds only an empty image
-- takes, with which the loop does not end.
unfoldable pub load_rom : List ℕ → ℕ → Option (List ℕ)
unfolding repeat_image
load_rom image size =
    if leb (length image) size
    then repeat_image (size + 1) size (length image) 0 (sub32 size (length image)) image
    else none

unfoldable pub copies : ℕ → List ℕ → List ℕ
copies zero image = []
copies (suc k) image = image ++ copies k image

drop-append : (xs ys : List ℕ) → drop (length xs) (xs ++ ys) ≡ ys
drop-append [] ys = refl
drop-append (x ∷ xs) ys = drop-append xs ys

length-append : (xs ys : List ℕ) → length (xs ++ ys) ≡ length xs + length ys
length-append [] ys = omega arith
length-append (x ∷ xs) ys = omega (arith, length-append xs ys)

append_nil : (xs : List ℕ) → xs ++ [] ≡ xs
append_nil [] = refl
append_nil (x ∷ xs) = ap (λ (l : List ℕ). x ∷ l) (append_nil xs)

if_true : {A : Type 0} (b : Bool) (x y : A) → b ≡ true → (if b then x else y) ≡ x
if_true true x y e = refl
if_true false x y e = cc

append_assoc : (xs ys zs : List ℕ) → (xs ++ ys) ++ zs ≡ xs ++ (ys ++ zs)
append_assoc [] ys zs = refl
append_assoc (x ∷ xs) ys zs = ap (λ (l : List ℕ). x ∷ l) (append_assoc xs ys zs)

times_zero : (n : ℕ) → 0 * n ≡ 0
times_zero n = omega arith

times_suc : (k n : ℕ) → suc k * n ≡ n + k * n
times_suc k n = omega arith

-- One round, for an image of `n` bytes.
repeat_image-suc :
    (fuel size n maxsize : ℕ) (pre image : List ℕ)
    → length image ≡ n
    → 0 < n
    → n + maxsize < 2 ^ 32
    → length pre + n + (n + maxsize) ≤ size
    → repeat_image (suc fuel) size n (length pre) (n + maxsize) (pre ++ image)
      ≡ repeat_image fuel size n (length (pre ++ image)) maxsize ((pre ++ image) ++ image)
unfolding repeat_image
repeat_image-suc fuel size n maxsize pre image len some_bytes small fits =
    let left : sub32 (n + maxsize) n ≡ maxsize = omega arith in
    let at : length pre + n ≡ length (pre ++ image) = omega (arith, length-append pre image, len) in
    ground (arith, left, at, drop-append pre image, some_bytes, fits)

repeat_image-copies :
    (k fuel size n : ℕ) (pre image : List ℕ)
    → length image ≡ n
    → 0 < n
    → k < fuel
    → k * n < 2 ^ 32
    → length pre + n + k * n ≤ size
    → repeat_image fuel size n (length pre) (k * n) (pre ++ image)
      ≡ some (pre ++ copies (suc k) image)
unfolding copies
repeat_image-copies k zero size n pre image len some_bytes more small fits =
    absurd (omega (arith, more))
repeat_image-copies zero (suc fuel) size n pre image len some_bytes more small fits =
    ap (λ m. repeat_image (suc fuel) size n (length pre) m (pre ++ image)) (times_zero n)
    ∙ unfold repeat_image in ap (λ (l : List ℕ). some (pre ++ l)) (sym (append_nil image))
repeat_image-copies (suc k) (suc fuel) size n pre image len some_bytes more small fits =
    let whole = times_suc k n in
    ap (λ m. repeat_image (suc fuel) size n (length pre) m (pre ++ image)) whole
    ∙ repeat_image-suc fuel size n (k * n) pre image len some_bytes (omega (arith, small, whole))
        (omega (arith, fits, whole))
    ∙ repeat_image-copies k fuel size n (pre ++ image) image len some_bytes (omega (arith, more))
        (omega (arith, small, whole)) (omega (arith, fits, whole, length-append pre image, len))
    ∙ ap some (append_assoc pre image (image ++ copies k image))

-- There are no more rounds than bytes.
le_times : (k n : ℕ) → 0 < n → k ≤ k * n
le_times zero n lt = omega arith
le_times (suc k) n lt = omega (arith, le_times k n lt, times_suc k n)

-- For an image of at least one byte and a ROM whose size is a multiple of the image's and below 2
-- ^ 32: loading returns, and the ROM then holds the image, over and over.
pub load_rom-copies :
    (k size : ℕ) (image : List ℕ)
    → 0 < length image
    → size ≡ suc k * length image
    → size < 2 ^ 32
    → load_rom image size ≡ some (copies (suc k) image)
unfolding load_rom
load_rom-copies k size image some_bytes whole small =
    let n = length image in
    let parts : size ≡ n + k * n = whole ∙ times_suc k n in
    let rest : sub32 size n ≡ k * n = omega (arith, parts, small) in
    if_true (leb n size) _ _ (ground (arith, parts))
    ∙ ap (λ m. repeat_image (size + 1) size n 0 m image) rest
    ∙ repeat_image-copies k (size + 1) size n [] image refl some_bytes
        (omega (arith, le_times k n some_bytes, parts)) (omega (arith, parts, small))
        (omega (arith, parts))
