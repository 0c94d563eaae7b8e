-- ===== src/Torrent/Layout.antt =====
-- The hashes of a torrent that `read_meta` accepts.
use rustorrent.Common.{
  ℕ, zero, suc, ◌*◌, ◌%◌, ◌≤◌, ◌≡◌, refl, List, [], ◌∷◌, ◌++◌, All, arith, ap, ◌∙◌, length, take,
  drop, tests, Bool-cases, inl, inr, ltb, length-drop, length-take, take-append-drop,
}
use rustorrent.Common.Outcome.{ok}
use rustorrent.Torrent.{MetaTorrent, Torrent, chunks_exact, sha_pieces, checked_meta}

-- the chunks put together again
abbrev pub joined : List (List ℕ) → List ℕ
joined [] = []
joined (c ∷ cs) = c ++ joined cs

length-zero : (xs : List ℕ) → length xs ≡ 0 → xs ≡ []
length-zero [] e = refl
length-zero (x ∷ xs) e = absurd (omega arith)

-- what is true of the chunks of a list that they cut evenly
record IsCut (bytes : List ℕ) (cs : List (List ℕ)) : Type 0 where
  whole : joined cs ≡ bytes
  each : All (λ c. length c ≡ 20) cs
  count : 20 * length cs ≡ length bytes

chunks_exact-IsCut :
    (fuel : ℕ) (bytes : List ℕ)
    → length bytes ≤ fuel
    → length bytes % 20 ≡ 0
    → IsCut bytes (chunks_exact fuel 20 bytes)
unfolding chunks_exact
chunks_exact-IsCut zero bytes h e =
    rw (length-zero bytes (omega arith)) (record { whole = refl; each = tt; count = refl })
chunks_exact-IsCut (suc fuel) bytes h e = elim (Bool-cases (ltb (length bytes) 20)) [
  | inl short ↦
      rw short
        (rw (length-zero bytes (omega tests)) (record { whole = refl; each = tt; count = refl }))
  | inr more ↦
      let long : 20 ≤ length bytes = ground (arith, more) in
      let rest =
        chunks_exact-IsCut fuel (drop 20 bytes) (omega (arith, length-drop {0} 20 bytes))
          (omega (arith, length-drop {0} 20 bytes)) in
      rw more (record {
        whole = ap (λ r. take 20 bytes ++ r) rest.whole ∙ take-append-drop 20 bytes;
        each = (omega (arith, length-take {0} 20 bytes), rest.each);
        count = omega (arith, rest.count, length-drop {0} 20 bytes);
      })
]

-- A torrent that passes the checks has one hash of 20 bytes for each 20 bytes of `pieces`, and the
-- hashes together are `pieces`.
pub sha_pieces-checked_meta :
    (meta : MetaTorrent) (hash : List ℕ) {t : Torrent}
    → checked_meta meta hash ≡ ok t
    → (joined (sha_pieces t) ≡ meta.info.pieces)
      × All (λ c. length c ≡ 20) (sha_pieces t)
      × (20 * length (sha_pieces t) ≡ length meta.info.pieces)
unfolding checked_meta sha_pieces
sha_pieces-checked_meta meta hash {t} e =
    let same : t.meta.info.pieces ≡ meta.info.pieces = ground arith in
    let even : length t.meta.info.pieces % 20 ≡ 0 = rw same (ground arith) in
    let cut =
      chunks_exact-IsCut (length t.meta.info.pieces) t.meta.info.pieces (omega arith) even in
    (cut.whole ∙ same, cut.each, cut.count ∙ ap length same)
