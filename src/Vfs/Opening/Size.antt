-- ===== src/Vfs/Opening/Size.antt =====
-- The size of a new container of plugins/vfs-cake/src/EncryptedVFSContainer.cpp, and what open
-- leaves behind when it fails.
use a_social.Base.{
  ℕ, ◌+◌, ◌-◌, ◌%◌, ◌^◌, ◌≤◌, ◌<◌, ◌≡◌, inl, inr, arith, some, ltb, Bool-cases, some-injective,
}
use a_social.Vfs.Layout.{data_alignment, align_up, add64}
use a_social.Vfs.Layout.Blocks.{align_up_lem}
use a_social.Vfs.Opening.{min_size, ceiling, size_offset, container_size}

size_offset_below : (range draw : ℕ) → size_offset range draw ≤ range
size_offset_below range draw = elim (Bool-cases (ltb 0 range)) [
  | inl some_room ↦
      let positive : 0 < range = ground arith in rw some_room (omega (arith, positive))
  | inr no_room ↦ rw no_room (omega arith)
]

-- A new container holds the header and a mebibyte, is aligned, and exceeds the ceiling that the
-- limit and the free space set by less than one alignment unit, on a disk of less than 2 ^ 63 bytes.
pub container_size_lem :
    (max_size free_space draw s : ℕ)
    → free_space < 2 ^ 63
    → container_size max_size free_space draw ≡ some s
    → (min_size ≤ s) × (s % data_alignment ≡ 0) × (s < ceiling max_size free_space + data_alignment)
unfolding container_size
container_size_lem max_size free_space draw s small e =
    let top = ceiling max_size free_space in
    let top_small : top ≤ 2 ^ 62 = ground (arith, small) in
    elim (Bool-cases (ltb top min_size)) [
      | inl short ↦ cc
      | inr enough ↦
          let off = size_offset (top - min_size) draw in
          let same : align_up (add64 min_size off) ≡ s = some-injective (rw enough at e) in
          let fits : min_size ≤ top = ground arith in
          let inside : off ≤ top - min_size = size_offset_below (top - min_size) draw in
          let exact : add64 min_size off ≡ min_size + off =
            omega (arith, inside, top_small, fits) in
          let a =
            align_up_lem (add64 min_size off) (omega (arith, exact, inside, top_small, fits)) in
          (
            omega (arith, same, exact, a.0),
            omega (arith, same, a.2),
            omega (arith, same, exact, inside, fits, a.1),
          )
    ]
