-- ===== src/Vfs/Opening/Examples.antt =====
-- Opening an empty disk, and the size of a new container on a disk with 64 MiB free.
use a_social.Base.{
  ◌≡◌, ◌≤◌, ◌<◌, ◌+◌, ◌*◌, ◌%◌, refl, arith, some, true, false, get_or, ◌∷◌, [], Option,
}
use a_social.Base.Bytes.{Bytes}
use a_social.Vfs.Layout.{data_alignment, align_up}
use a_social.Vfs.Toy.{toy, Disk}
use a_social.Vfs.Container.{Container, VirtualFile}
use a_social.Vfs.Opening.{min_size, ceiling, container_size, magic}
use a_social.Vfs.Opening.Outcome.{Opens}
use a_social.Vfs.Opening.Size.{container_size_lem}

chosen : container_size 0 (64 * 1024 * 1024) 5000000 ≡ some 6578176
unfolding container_size align_up
chosen = refl

container_size_lem_example :
    (min_size ≤ 6578176)
    × (6578176 % data_alignment ≡ 0)
    × (6578176 < ceiling 0 (64 * 1024 * 1024) + data_alignment)
container_size_lem_example =
    container_size_lem 0 (64 * 1024 * 1024) 5000000 6578176 (omega arith) chosen

abbrev empty_disk : Disk
empty_disk = record { size = 0; byte = λ i. 0 }

abbrev closed : Container toy
closed = record { file = empty_disk; key = []; salt = []; files = []; is_open = false; draws = 0 }

abbrev plain_hash : Bytes → Bytes → Option Bytes
plain_hash pw salt = some pw

-- A disk with the magic number in front.
abbrev cake : Disk
cake = record { size = 4096; byte = λ i. get_or magic i 0 }

cake-Opens : Opens toy plain_hash [] cake []
cake-Opens = (refl, refl, refl)

-- An open container with a virtual file that was written to.
abbrev opened : Container toy
opened = record closed { is_open = true }

abbrev draft : VirtualFile
draft = record { slot_index = 0; contents = b'x' ∷ []; dirty = true }
