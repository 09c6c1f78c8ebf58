-- ===== src/Fsm/DataDir/Reading.antt =====
-- The content of pebble.running, which fsm/utils.go reads.
use raft_example.Prelude.{
  ◌<◌, ◌≡◌, ◌≢◌, ◌↔◌, refl, sym, ap, subst, ◌∙◌, [], ◌∷◌, ◌++◌, Bytes, arith, same_iff, same_refl,
  lt→leb, length, take, drop, length-append, length-take, length-drop, take-append, drop-append,
  take-append-drop, ok,
}
use raft_example.Fsm.DataDir.{checksum, parse_pointer}

-- `md5.Size`
abbrev pub IsMd5 : (Bytes → Bytes) → Type 0
IsMd5 md5 = (x : Bytes) → length (md5 x) ≡ 16

nonempty : (xs : Bytes) → 0 < length xs → xs ≢ []
nonempty [] h e = absurd (omega arith)
nonempty (x ∷ xs) h e = cc

positive : (xs : Bytes) → xs ≢ [] → 0 < length xs
positive [] h = absurd (h refl)
positive (x ∷ xs) h = omega arith

module _ (md5 : Bytes → Bytes) where
  parse_sound :
      (content name : Bytes)
      → parse_pointer md5 content ≡ ok name
      → (content ≡ checksum md5 name ++ name) × (name ≢ [])
  unfolding parse_pointer
  parse_sound content name h =
      let long : 8 < length content = ground arith in
      let body : drop 8 content ≡ name = ground arith in
      let sum : take 8 content ≡ checksum md5 (drop 8 content) =
        ground (arith, same_iff (take 8 content) (checksum md5 (drop 8 content))) in
      (
        sym (take-append-drop 8 content)
            ∙ ap (λ x. x ++ drop 8 content) sum
            ∙ ap (λ x. checksum md5 x ++ x) body,
        nonempty name (omega (arith, length-drop 8 content, ap length body)),
      )

  parse_complete :
      IsMd5 md5
      → (name : Bytes) → name ≢ []
      → parse_pointer md5 (checksum md5 name ++ name) ≡ ok name
  unfolding parse_pointer
  parse_complete sized name h =
      let c = checksum md5 name in
      let eight : length c ≡ 8 = length-take 8 (md5 name) (omega (arith, sized name)) in
      let long =
        lt→leb 8 (length (c ++ name))
          (omega (arith, length-append c name, eight, positive name h)) in
      let front = subst (λ n. take n (c ++ name) ≡ c) eight (take-append c name) in
      let back = subst (λ n. drop n (c ++ name) ≡ name) eight (drop-append c name) in
      rw (long, front, back, same_refl c)

  -- With a digest of 16 bytes, the content of pebble.running is accepted as the folder `name`
  -- exactly if it is that name behind the first eight bytes of its own digest, and the name is not
  -- empty.
  pub parse_pointer_iff :
      IsMd5 md5
      → (content name : Bytes)
      → (parse_pointer md5 content ≡ ok name)
        ↔ ((content ≡ checksum md5 name ++ name) × (name ≢ []))
  parse_pointer_iff sized content name =
      (parse_sound content name, λ (e, h). rw e (parse_complete sized name h))
