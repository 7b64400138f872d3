-- ===== src/Paths/Laws.antt =====
-- What ValidatePath accepts: a bounded join of plain segments.
use execenv.Base.{
  ℕ, ◌≤◌, ◌≡◌, ◌≢◌, ◌↔◌, ◌⊎◌, refl, true, false, List, [], ◌∷◌, ◌++◌, arith, Bytes, codes, length,
  All, bytes_beq_iff, valid_string, split, contains_byte, join, join-split, split-cons, split-join,
  subst, split-Clean, contains_byte-append,
}
use execenv.Errors.{ok, err, sentinel, invalid}
use execenv.Paths.{
  has_suffix_slash, has_prefix_slash, has_control, check_segment, check_segments, validate_path,
}

-- A name that is neither the directory itself nor its parent, and has no separator.
pub record IsSegment (p : Bytes) : Type 0 where
  pub nonempty : p ≢ []
  pub not_here : p ≢ codes "."
  pub not_parent : p ≢ codes ".."
  pub bounded : length p ≤ 255
  pub printable : All (λ b. 0x20 ≤ b) p
  pub no_slash : contains_byte b'/' p ≡ false
  pub no_backslash : contains_byte b'\\' p ≡ false

pub record IsPath (path : Bytes) : Type 0 where
  pub first : Bytes
  pub others : List Bytes
  pub joined : join b'/' (first ∷ others) ≡ path
  pub shallow : length (first ∷ others) ≤ 16
  pub plain : All IsSegment (first ∷ others)
  pub bounded : length path ≤ 1024
  pub utf8 : valid_string path ≡ true

has_control_iff : (s : Bytes) → (has_control s ≡ false) ↔ All (λ b. 0x20 ≤ b) s
unfolding has_control
has_control_iff [] = (λ h. tt, λ h. refl)
has_control_iff (c ∷ s) = (
  λ h. (ground arith, (has_control_iff s).0 (ground arith)),
  λ h. ground (arith, (has_control_iff s).1 h.1),
)

printable-no_nul : (s : Bytes) → All (λ b. 0x20 ≤ b) s → contains_byte 0 s ≡ false
unfolding contains_byte
printable-no_nul [] h = refl
printable-no_nul (c ∷ s) (h, hs) = ground (arith, printable-no_nul s hs)

check_segment_sound :
    (p : Bytes)
    → contains_byte b'/' p ≡ false
    → contains_byte b'\\' p ≡ false
    → check_segment p ≡ true
    → IsSegment p
unfolding check_segment
check_segment_sound p s b h = record {
  nonempty = ground (arith, bytes_beq_iff p []);
  not_here = ground (arith, bytes_beq_iff p (codes "."));
  not_parent = ground (arith, bytes_beq_iff p (codes ".."));
  bounded = ground arith;
  printable = (has_control_iff p).0 (ground arith);
  no_slash = s;
  no_backslash = b;
}

check_segment_complete : (p : Bytes) → IsSegment p → check_segment p ≡ true
unfolding check_segment
check_segment_complete p h = ground (
  arith,
  bytes_beq_iff p [],
  bytes_beq_iff p (codes "."),
  bytes_beq_iff p (codes ".."),
  (has_control_iff p).1 h.printable,
)

check_segments_sound :
    (ps : List Bytes)
    → All (λ p. contains_byte b'/' p ≡ false) ps
    → All (λ p. contains_byte b'\\' p ≡ false) ps
    → check_segments ps ≡ true
    → All IsSegment ps
unfolding check_segments
check_segments_sound [] s b h = tt
check_segments_sound (p ∷ ps) (s, ss) (b, bs) h =
    (check_segment_sound p s b (ground arith), check_segments_sound ps ss bs (ground arith))

check_segments_complete : (ps : List Bytes) → All IsSegment ps → check_segments ps ≡ true
unfolding check_segments
check_segments_complete [] h = refl
check_segments_complete (p ∷ ps) (h, hs) =
    ground (arith, check_segment_complete p h, check_segments_complete ps hs)

no_slash-parts : (ps : List Bytes) → All IsSegment ps → All (λ p. contains_byte b'/' p ≡ false) ps
no_slash-parts [] h = tt
no_slash-parts (p ∷ ps) (h, hs) = (h.no_slash, no_slash-parts ps hs)

-- A byte other than the separator stands in the join exactly if it stands in a part.
module _ (b : ℕ) (other : b ≢ b'/') where
  contains_byte-join_sound :
      (ps : List Bytes)
      → contains_byte b (join b'/' ps) ≡ false
      → All (λ p. contains_byte b p ≡ false) ps
  unfolding join contains_byte
  contains_byte-join_sound [] h = tt
  contains_byte-join_sound (p ∷ []) h = (h, tt)
  contains_byte-join_sound (p ∷ q ∷ ps) h =
      let e = contains_byte-append b p (b'/' ∷ join b'/' (q ∷ ps)) in
      (ground arith, contains_byte-join_sound (q ∷ ps) (ground arith))

  contains_byte-join_complete :
      (ps : List Bytes)
      → All (λ p. contains_byte b p ≡ false) ps
      → contains_byte b (join b'/' ps) ≡ false
  unfolding join contains_byte
  contains_byte-join_complete [] h = refl
  contains_byte-join_complete (p ∷ []) h = h.0
  contains_byte-join_complete (p ∷ q ∷ ps) h = ground (
    arith,
    contains_byte-append b p (b'/' ∷ join b'/' (q ∷ ps)),
    contains_byte-join_complete (q ∷ ps) h.1,
    other,
  )

no_backslash-parts :
    (ps : List Bytes) → All IsSegment ps → All (λ p. contains_byte b'\\' p ≡ false) ps
no_backslash-parts [] h = tt
no_backslash-parts (p ∷ ps) (h, hs) = (h.no_backslash, no_backslash-parts ps hs)

no_nul-parts : (ps : List Bytes) → All IsSegment ps → All (λ p. contains_byte 0 p ≡ false) ps
no_nul-parts [] h = tt
no_nul-parts (p ∷ ps) (h, hs) = (printable-no_nul p h.printable, no_nul-parts ps hs)

has_suffix_slash-append :
    (s : Bytes) (c : ℕ) (t : Bytes) → has_suffix_slash (s ++ c ∷ t) ≡ has_suffix_slash (c ∷ t)
unfolding has_suffix_slash
has_suffix_slash-append [] c t = refl
has_suffix_slash-append (a ∷ []) c t = refl
has_suffix_slash-append (a ∷ b ∷ s) c t = has_suffix_slash-append (b ∷ s) c t

has_suffix_slash_clean : (p : Bytes) → contains_byte b'/' p ≡ false → has_suffix_slash p ≡ false
unfolding has_suffix_slash contains_byte
has_suffix_slash_clean [] h = refl
has_suffix_slash_clean (a ∷ []) h = ground arith
has_suffix_slash_clean (a ∷ b ∷ s) h = has_suffix_slash_clean (b ∷ s) (ground arith)

join-ne-nil : (p : Bytes) (ps : List Bytes) → p ≢ [] → join b'/' (p ∷ ps) ≢ []
unfolding join
join-ne-nil [] ps h e = h refl
join-ne-nil (c ∷ p) [] h e = cc
join-ne-nil (c ∷ p) (q ∷ ps) h e = cc

slash_before :
    (s : Bytes) → s ≢ [] → has_suffix_slash s ≡ false → has_suffix_slash (b'/' ∷ s) ≡ false
unfolding has_suffix_slash
slash_before [] h e = absurd (h refl)
slash_before (c ∷ s) h e = e

has_suffix_slash-join :
    (p : Bytes) (ps : List Bytes)
    → All IsSegment (p ∷ ps)
    → has_suffix_slash (join b'/' (p ∷ ps)) ≡ false
unfolding join
has_suffix_slash-join p [] h = has_suffix_slash_clean p h.0.no_slash
has_suffix_slash-join p (q ∷ ps) h = rw has_suffix_slash-append (
    slash_before (join b'/' (q ∷ ps)) (join-ne-nil q ps h.1.0.nonempty)
      (has_suffix_slash-join q ps h.1))

has_prefix_slash-join :
    (p : Bytes) (ps : List Bytes) → IsSegment p → has_prefix_slash (join b'/' (p ∷ ps)) ≡ false
unfolding join has_prefix_slash contains_byte
has_prefix_slash-join [] ps h = absurd (h.nonempty refl)
has_prefix_slash-join (c ∷ p) [] h = ground (arith, h.no_slash)
has_prefix_slash-join (c ∷ p) (q ∷ ps) h = ground (arith, h.no_slash)

module _ (path p : Bytes) (ps : List Bytes) (parts : split b'/' path ≡ p ∷ ps) where
  validate_path_sound : validate_path path ≡ ok tt → IsPath path
  unfolding validate_path
  validate_path_sound h = record {
    first = p;
    others = ps;
    joined = whole;
    shallow = ground arith;
    plain =
        check_segments_sound (p ∷ ps) (rw parts at (split-Clean b'/' path))
          (contains_byte-join_sound b'\\' (omega arith) (p ∷ ps) (rw whole (ground arith)))
          (ground arith);
    bounded = ground arith;
    utf8 = ground arith;
  }
    where
      whole : join b'/' (p ∷ ps) ≡ path
      whole = rw parts at (join-split b'/' path)

validate_path_complete : (path : Bytes) → IsPath path → validate_path path ≡ ok tt
unfolding validate_path
validate_path_complete path h = ground (
  arith,
  bytes_beq_iff path [],
  subst (λ s. s ≢ []) h.joined (join-ne-nil h.first h.others h.plain.0.nonempty),
  subst (λ s. split b'/' s ≡ h.first ∷ h.others) h.joined
      (split-join b'/' h.first h.others (no_slash-parts (h.first ∷ h.others) h.plain)),
  subst (λ s. has_suffix_slash s ≡ false) h.joined (has_suffix_slash-join h.first h.others h.plain),
  subst (λ s. has_prefix_slash s ≡ false) h.joined
      (has_prefix_slash-join h.first h.others h.plain.0),
  subst (λ s. contains_byte b'\\' s ≡ false) h.joined
      (contains_byte-join_complete b'\\' (omega arith) (h.first ∷ h.others)
        (no_backslash-parts (h.first ∷ h.others) h.plain)),
  subst (λ s. contains_byte 0 s ≡ false) h.joined
      (contains_byte-join_complete 0 (omega arith) (h.first ∷ h.others)
        (no_nul-parts (h.first ∷ h.others) h.plain)),
  check_segments_complete (h.first ∷ h.others) h.plain,
)

validate_path_cases :
    (path : Bytes) → (validate_path path ≡ ok tt) ⊎ (validate_path path ≡ err (sentinel invalid))
unfolding validate_path
validate_path_cases path = ground arith

-- ValidatePath accepts exactly the joins by '/' of 1 to 16 plain segments that are valid UTF-8
-- and at most 1024 bytes long; a plain segment is not empty, "." or "..", is at most 255 bytes,
-- and has no control byte, slash or backslash. Anything else is ErrInvalid.
pub validate_path-ok :
    (path : Bytes)
    → ((validate_path path ≡ ok tt) ↔ IsPath path)
      × ((validate_path path ≡ ok tt) ⊎ (validate_path path ≡ err (sentinel invalid)))
validate_path-ok path =
    let (p, ps, parts) = split-cons b'/' path in
    ((validate_path_sound path p ps parts, validate_path_complete path), validate_path_cases path)
