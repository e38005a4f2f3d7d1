-- ===== src/Tests/Images.antt =====
-- An empty image, and a host that writes every sector.
use lxos.Base.{ℕ, ◌+◌, ◌≡◌, refl, Bool, false, some, arith}
use lxos.Libc.Memory.{get32}
use lxos.Utils.Mkfs.{Image, superblock, zeroes, balloc, iappend}
use lxos.Utils.Mkfs.Marking.{Marked, balloc-Marked}
use lxos.Utils.Mkfs.Appending.{Grown, size_of, iappend-size}
use lxos.Utils.Mkfs.Layout.{Formatted, format, format-Formatted}

abbrev works : ℕ → Bool
works sec = false

abbrev empty : Image
empty = record { sector = λ k. zeroes; sb = superblock; freeinode = 1; freeblock = 59 }

balloc-Marked_example : (s' : Image) × (balloc works 61 empty ≡ some s') × Marked 61 empty s'
balloc-Marked_example = balloc-Marked works 61 empty (omega arith) refl

no_size : size_of 1 empty ≡ 0
no_size = unfold get32 in refl

iappend-size_example :
    (s' : Image) × (iappend works 1 zeroes 600 empty ≡ some s')
    × (size_of 1 s' ≡ size_of 1 empty + 600)
    × Grown empty s'
iappend-size_example = iappend-size works 1 600 zeroes empty (λ sec. refl) (omega (arith, no_size))

format-Formatted_example : (s' : Image) × (format works empty ≡ some s') × Formatted s'
format-Formatted_example = format-Formatted works empty (λ sec. refl)
