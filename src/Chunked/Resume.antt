-- ===== src/Chunked/Resume.antt =====
-- What an interrupted upload comes to.
use gridix_infra.Models.Rows.{Uuid}
use gridix_infra.Chunked.{
  Bytes, Staging, Appended, append, appended, create, received, offset_mismatch, cleanup, assemble,
  contents, size_of,
}
use gridix_infra.Prelude.{
  ℕ, zero, suc, ◌+◌, ◌≤◌, false, some, List, [], ◌∷◌, ◌++◌, ◌≡◌, ◌∙◌, ap, sym, refl, take, length,
  arith, ◌==◌, Bool-cases, inr, inl, true, if◌then◌else◌, ==→eq, ==_refl, not, length-append,
}
use mathlib.Core.Path.{subst}
use gridix_infra.Prelude.Dict.{nat_eq, get-put, get-keep, get, put}
use mathlib.Core.List.{append_assoc}

-- `blob[n:]`
abbrev pub drop : ℕ → Bytes → Bytes
drop zero xs = xs
drop (suc n) [] = []
drop (suc n) (x ∷ xs) = drop n xs

-- `blob[offset:offset + n]`
abbrev pub slice : ℕ → ℕ → Bytes → Bytes
slice offset n blob = take n (drop offset blob)

drop-append : (xs ys : Bytes) → drop (length xs) (xs ++ ys) ≡ ys
drop-append [] ys = refl
drop-append (x ∷ xs) ys = drop-append xs ys

take-drop : (n : ℕ) (xs : Bytes) → take n xs ++ drop n xs ≡ xs
take-drop zero xs = refl
take-drop (suc n) [] = refl
take-drop (suc n) (x ∷ xs) = ap (λ ys. x ∷ ys) (take-drop n xs)

length-drop_le : (n : ℕ) (xs : Bytes) → length (drop n xs) ≤ length xs
length-drop_le zero xs = omega arith
length-drop_le (suc n) [] = omega arith
length-drop_le (suc n) (x ∷ xs) = omega (arith, length-drop_le n xs)

length-drop : (n : ℕ) (xs : Bytes) (k : ℕ) → 1 ≤ n → length xs ≤ suc k → length (drop n xs) ≤ k
length-drop zero xs k h le = absurd (omega (arith, h))
length-drop (suc n) [] k h le = omega arith
length-drop (suc n) (x ∷ xs) k h le = omega (arith, length-drop_le n xs, le)

module _ (id offset : ℕ) (chunk bytes : Bytes) (staging : Staging) where
  append_accepts :
      get id staging ≡ some bytes
      → (offset == length bytes) ≡ true
      → append id offset chunk staging
        ≡ appended (length bytes + length chunk) (put id (bytes ++ chunk) staging)
  unfolding append received
  append_accepts g e = rw g (rw e refl)

  append_refuses :
      get id staging ≡ some bytes
      → (offset == length bytes) ≡ false
      → append id offset chunk staging ≡ offset_mismatch (length bytes) offset
  unfolding append received
  append_refuses g e = rw g (rw e refl)

get-put_same :
    (id : ℕ) (bytes : Bytes) (staging : Staging) → get id (put id bytes staging) ≡ some bytes
get-put_same id bytes staging =
    get-put id id bytes staging ∙ ap (λ b. if b then some bytes else get id staging) (==_refl id)

-- The staging after a call: a refused chunk changes nothing.
abbrev pub staging_after : Staging → Appended → Staging
staging_after staging (appended n next) = next
staging_after staging (offset_mismatch expected got) = staging

append_other :
    (id other offset : ℕ) (chunk : Bytes) (staging : Staging)
    → (other == id) ≡ false
    → get id (staging_after staging (append other offset chunk staging)) ≡ get id staging
unfolding append
append_other id other offset chunk staging e =
    elim (Bool-cases (offset == received other staging)) [
      | inl t ↦ rw t (
          get-put other id _ staging
          ∙ ap (λ b. if b then some (contents (get other staging) ++ chunk) else get id staging) e)
      | inr t ↦ rw t refl
    ]

module _ (id : Uuid) (blob : Bytes) where
  -- What a client of the upload sends, in any order and any number of times, and what the clients
  -- of other uploads do meanwhile.
  pub data Call : Type 0 where
    piece : ℕ → ℕ → Call
    other_append : (other : Uuid) → (other == id) ≡ false → ℕ → Bytes → Call
    other_create other_cleanup : (other : Uuid) → (other == id) ≡ false → Call

  abbrev pub call : Call → Staging → Staging
  call (piece offset n) staging =
      staging_after staging (append id offset (slice offset n blob) staging)
  call (other_append other e offset chunk) staging =
      staging_after staging (append other offset chunk staging)
  call (other_create other e) staging = create other staging
  call (other_cleanup other e) staging = cleanup other staging

  abbrev pub call_all : List Call → Staging → Staging
  call_all [] staging = staging
  call_all (c ∷ cs) staging = call_all cs (call c staging)

  -- The staged bytes are the beginning of the blob.
  record IsPrefix (staging : Staging) : Type 0 where
    staged : Bytes
    left : Bytes
    found : get id staging ≡ some staged
    splits : staged ++ left ≡ blob

  -- A piece at the end of what is staged takes the next bytes of the blob.
  next_piece :
      (offset n : ℕ) (staging : Staging) (p : IsPrefix staging)
      → (offset == length p.staged) ≡ true
      → (q : IsPrefix (call (piece offset n) staging)) × (q.left ≡ drop n p.left)
  next_piece offset n staging p e =
      let here : offset ≡ length p.staged = ==→eq _ _ e in
      let chunk : slice offset n blob ≡ take n p.left =
        ap (λ k. slice k n blob) here
        ∙ ap (λ xs. take n (drop (length p.staged) xs)) (sym p.splits)
        ∙ ap (take n) (drop-append p.staged p.left) in
      subst (λ a. (q : IsPrefix (staging_after staging a)) × (q.left ≡ drop n p.left))
        (sym (append_accepts id offset (slice offset n blob) p.staged staging p.found e))
        (
          record {
            staged = p.staged ++ slice offset n blob;
            left = drop n p.left;
            found = get-put_same id (p.staged ++ slice offset n blob) staging;
            splits =
                ap (λ c. (p.staged ++ c) ++ drop n p.left) chunk
                ∙ append_assoc p.staged (take n p.left) (drop n p.left)
                ∙ ap (λ xs. p.staged ++ xs) (take-drop n p.left)
                ∙ p.splits;
          },
          refl,
        )

  piece-IsPrefix :
      (offset n : ℕ) (staging : Staging)
      → IsPrefix staging
      → IsPrefix (call (piece offset n) staging)
  piece-IsPrefix offset n staging p = elim (Bool-cases (offset == length p.staged)) [
    | inl e ↦ (next_piece offset n staging p e).0
    | inr e ↦
        subst (λ a. IsPrefix (staging_after staging a))
          (sym (append_refuses id offset (slice offset n blob) p.staged staging p.found e)) p
  ]

  -- What leaves this upload's file as it is.
  same-IsPrefix :
      (staging next : Staging) → get id next ≡ get id staging → IsPrefix staging → IsPrefix next
  same-IsPrefix staging next e p = record {
    staged = p.staged;
    left = p.left;
    found = e ∙ p.found;
    splits = p.splits;
  }

  call-IsPrefix : (c : Call) (staging : Staging) → IsPrefix staging → IsPrefix (call c staging)
  unfolding create cleanup
  call-IsPrefix (piece offset n) staging p = piece-IsPrefix offset n staging p
  call-IsPrefix (other_append other e offset chunk) staging p =
      same-IsPrefix staging _ (append_other id other offset chunk staging e) p
  call-IsPrefix (other_create other e) staging p =
      same-IsPrefix staging _
        (get-put other id [] staging ∙ ap (λ b. if b then some [] else get id staging) e) p
  call-IsPrefix (other_cleanup other e) staging p =
      same-IsPrefix staging _ (get-keep (λ x. not (x == other)) id staging (ground (arith, e))) p

  call_all-IsPrefix :
      (cs : List Call) (staging : Staging) → IsPrefix staging → IsPrefix (call_all cs staging)
  call_all-IsPrefix [] staging p = p
  call_all-IsPrefix (c ∷ cs) staging p =
      call_all-IsPrefix cs (call c staging) (call-IsPrefix c staging p)

  create-IsPrefix : (staging : Staging) → IsPrefix (create id staging)
  unfolding create
  create-IsPrefix staging = record {
    staged = [];
    left = blob;
    found = get-put_same id [] staging;
    splits = refl;
  }

  whole : (xs ys : Bytes) → length (xs ++ ys) ≤ length xs → xs ++ ys ≡ xs
  whole [] [] h = refl
  whole [] (y ∷ ys) h = absurd (omega (arith, h))
  whole (x ∷ xs) ys h = ap (λ zs. x ∷ zs) (whole xs ys (omega (arith, h)))

  -- However the pieces of a blob are sent, repeated, out of order or after an interruption, and
  -- whatever other uploads do meanwhile: once as many bytes as the blob has are received, the
  -- assembled upload is the blob.
  pub upload_roundtrip :
      (cs : List Call) (staging : Staging)
      → received id (call_all cs (create id staging)) ≡ length blob
      → assemble id (call_all cs (create id staging)) ≡ some blob
  unfolding received assemble
  upload_roundtrip cs staging h =
      let p = call_all-IsPrefix cs (create id staging) (create-IsPrefix staging) in
      let total : length (p.staged ++ p.left) ≡ length blob = ap length p.splits in
      let here : length p.staged ≡ length blob = sym (ap size_of p.found) ∙ h in
      p.found ∙ ap some (sym (whole p.staged p.left (omega (arith, here, total))) ∙ p.splits)

  -- A client that asks for the number of received bytes and sends the next piece from there.
  abbrev pub resume : ℕ → ℕ → Staging → Staging
  resume zero n staging = staging
  resume (suc rounds) n staging = resume rounds n (call (piece (received id staging) n) staging)

  resume_from :
      (rounds n : ℕ) (staging : Staging) (p : IsPrefix staging)
      → 1 ≤ n
      → length p.left ≤ rounds
      → get id (resume rounds n staging) ≡ some blob
  unfolding received
  resume_from zero n staging p some_bytes h =
      let size = length-append p.staged p.left in
      p.found ∙ ap some (sym (whole p.staged p.left (omega (arith, size, h))) ∙ p.splits)
  resume_from (suc rounds) n staging p some_bytes h =
      let here : (received id staging == length p.staged) ≡ true =
        ap (λ o. size_of o == length p.staged) p.found ∙ ==_refl (length p.staged) in
      let (q, rest) = next_piece (received id staging) n staging p here in
      let fewer : length q.left ≤ rounds =
        subst (λ xs. length xs ≤ rounds) (sym rest) (length-drop n p.left rounds some_bytes h) in
      resume_from rounds n _ q some_bytes fewer

  -- An upload that was interrupted in any way is completed by resuming: a client that asks for the
  -- received bytes and sends the next piece, of one byte or more, has uploaded exactly the blob
  -- after at most as many rounds as the blob has bytes.
  pub resume_completes :
      (cs : List Call) (staging : Staging) (rounds n : ℕ)
      → 1 ≤ n
      → length blob ≤ rounds
      → assemble id (resume rounds n (call_all cs (create id staging))) ≡ some blob
  unfolding assemble
  resume_completes cs staging rounds n some_bytes h =
      let p = call_all-IsPrefix cs (create id staging) (create-IsPrefix staging) in
      let size = length-append p.staged p.left in
      let total : length (p.staged ++ p.left) ≡ length blob = ap length p.splits in
      resume_from rounds n _ p some_bytes (omega (arith, size, total, h))
