-- ===== src/Writer/Backup.antt =====
-- The backup of src/base/BackedWriter.cpp: what the cleanup keeps and what `recover` returns.
use eternal_terminal.Common.{
  ℕ, zero, suc, ◌+◌, ◌-◌, ◌≤◌, ◌<◌, ◌≡◌, refl, ap, ◌∙◌, ◌⊎◌, inl, inr, none, some, List, [], ◌∷◌,
  ◌++◌, arith, length, map, reverse, append_assoc, reverse-append, reverse-reverse, length-reverse,
  ok, throws, runtime_error, Bool-cases, ltb, ltb_false→le, ltb→lt, eq_false, map-reverse,
}
use eternal_terminal.Packet.{Packet, packet_length, serialize}
use eternal_terminal.Writer.{Writer, trim, collect, recover_messages, max_backup_bytes}

abbrev pub total : List Packet → ℕ
total [] = 0
total (p ∷ ps) = packet_length p + total ps

pub total-append : (ps qs : List Packet) → total (ps ++ qs) ≡ total ps + total qs
total-append [] qs = omega arith
total-append (p ∷ ps) qs = omega (arith, total-append ps qs)

-- What a cleanup drops, the oldest first, and keeps: as many of the newest packets as fit.
pub record Trimmed (ps : List Packet) (kept : List Packet × ℕ) : Type 0 where
  pub dropped : List Packet
  pub cut : ps ≡ dropped ++ kept.0
  pub sized : kept.1 ≡ total kept.0
  pub fits : kept.1 ≤ max_backup_bytes
  pub needed :
      (dropped ≡ [])
      ⊎ ((older : List Packet) × (p : Packet) × (dropped ≡ older ++ (p ∷ []))
          × (max_backup_bytes < total (p ∷ kept.0)))

trim_cons :
    (p : Packet) (ps : List Packet) {kept : List Packet × ℕ}
    → max_backup_bytes < total (p ∷ ps)
    → Trimmed ps kept
    → Trimmed (p ∷ ps) kept
trim_cons p ps {kept} big t = record {
  dropped = p ∷ t.dropped;
  cut = ap (λ l. p ∷ l) t.cut;
  sized = t.sized;
  fits = t.fits;
  needed = elim t.needed [
    | inl e ↦ inr ([], p, ap (λ l. p ∷ l) e, rw (← (t.cut ∙ ap (λ l. l ++ kept.0) e)) big)
    | inr (older, q, e, h) ↦ inr (p ∷ older, q, ap (λ l. p ∷ l) e, h)
  ];
}

-- The cleanup keeps the longest run of newest packets that fits, with its size.
pub trim-Trimmed : (ps : List Packet) → Trimmed ps (trim (total ps) ps)
unfolding trim
trim-Trimmed [] = record {
  dropped = [];
  cut = refl;
  sized = refl;
  fits = omega arith;
  needed = inl refl;
}
trim-Trimmed (p ∷ ps) = elim (Bool-cases (ltb max_backup_bytes (total (p ∷ ps)))) [
  | inl big ↦
      let e : total (p ∷ ps) - packet_length p ≡ total ps = omega arith in
      rw big (rw e (trim_cons p ps (ltb→lt _ _ big) (trim-Trimmed ps)))
  | inr small ↦ rw small (record {
    dropped = [];
    cut = refl;
    sized = refl;
    fits = ltb_false→le _ _ small;
    needed = inl refl;
  })
]

-- The loop of `recover` returns as many of the newest packets as it wants, the oldest first.
collect-take :
    (seen n : ℕ) (out : List (List ℕ)) (front back : List Packet)
    → length front ≡ suc n
    → collect (seen + suc n) seen out (front ++ back) ≡ some (reverse (out ++ map serialize front))
unfolding collect
collect-take seen n out [] back e = absurd (omega arith)
collect-take seen zero out (p ∷ []) back e = ground arith
collect-take seen zero out (p ∷ q ∷ front) back e = absurd (omega arith)
collect-take seen (suc n) out (p ∷ front) back e =
    let step : seen + 1 + suc n ≡ seen + suc (suc n) = omega arith in
    let out' = out ++ (serialize p ∷ []) in
    rw (eq_false (seen + 1) (seen + suc (suc n)) (omega arith)) (
      (rw step at (collect-take (seen + 1) n out' front back (omega arith)))
      ∙ ap (λ l. some (reverse l)) (append_assoc out (serialize p ∷ []) (map serialize front)))

collect_short :
    (wanted seen : ℕ) (out : List (List ℕ)) (ps : List Packet)
    → seen + length ps < wanted
    → collect wanted seen out ps ≡ none
unfolding collect
collect_short wanted seen out [] h = refl
collect_short wanted seen out (p ∷ ps) h =
    ground (arith, collect_short wanted (seen + 1) (out ++ (serialize p ∷ [])) ps)

newest-reverse :
    (older newer : List Packet) (n : ℕ)
    → length newer ≡ suc n
    → collect (suc n) 0 [] (reverse (older ++ newer)) ≡ some (map serialize newer)
newest-reverse older newer n e =
    let zero_more : 0 + suc n ≡ suc n = omega arith in
    rw (reverse-append older newer) (
      (rw zero_more at
        (collect-take 0 n [] (reverse newer) (reverse older) (omega (arith, length-reverse newer))))
      ∙ ap some (ap reverse (map-reverse serialize newer) ∙ reverse-reverse (map serialize newer)))

module _ (w : Writer) where
  -- With as many packets to recover as a last part of the backup has, the result is that part, in
  -- the order written.
  pub recover_messages-newest :
      (older newer : List Packet)
      → w.backup_buffer ≡ older ++ newer
      → recover_messages w (length newer) ≡ ok (map serialize newer)
  unfolding recover_messages
  recover_messages-newest older [] e = refl
  recover_messages-newest older (p ∷ newer) e = rw e (
      rw (newest-reverse older (p ∷ newer) (length newer) refl)
        (rw (eq_false (suc (length newer)) 0 (omega arith))))

  pub recover_messages_short :
      (n : ℕ) → length w.backup_buffer < n → recover_messages w n ≡ throws runtime_error
  unfolding recover_messages
  recover_messages_short n h =
      ground (arith, collect_short n 0 [] (reverse w.backup_buffer), length-reverse w.backup_buffer)
