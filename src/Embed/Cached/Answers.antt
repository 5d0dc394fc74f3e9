-- ===== src/Embed/Cached/Answers.antt =====
-- What the cached embedder of stack/backend/internal/embed/cache.go answers.
use truth_in_stream.Prelude.{
  ℕ, zero, suc, String, true, List, [], ◌∷◌, ◌++◌, append_assoc, map, length, set, All, Option,
  none, some, Option-cases, Runes, lookup-insert, ◌=?◌, =?→≡, =?_refl, ◌==◌, arith, ◌≡◌, refl, sym,
  ap, ◌∙◌, Bool-cases, inl, inr,
}
use truth_in_stream.Embed.Cached.{
  cache_key, InputType, Cache, embedded, Filler, get, put, scan, fill, fill_misses, store_filled,
  embed_missing, embed_scanned, embed_cached,
}

module _ {Vector : Type 0} (digest : Runes → String) (model : Runes) (kind : InputType)
    (f : Runes → Vector) where
  abbrev key : Runes → String
  key = cache_key digest model kind

  -- A cached vector of this kind is the embedding of every text with its key.
  abbrev pub IsTrue : Cache Vector → Type 0
  IsTrue c = (text : Runes) (vec : Vector) → get (key text) c ≡ some vec → vec ≡ f text

  -- The embedding of the text is cached.
  abbrev pub Holds : Cache Vector → Runes → Type 0
  Holds c text = get (key text) c ≡ some (f text)

  set_at :
      (pre : List (Option Vector)) (i : ℕ) (v : Option Vector) (out : List (Option Vector))
      → length pre ≡ i
      → set (pre ++ (none ∷ out)) i v ≡ (pre ++ v ∷ []) ++ out
  set_at [] zero v out h = refl
  set_at [] (suc i) v out h = absurd (omega (arith, h))
  set_at (p ∷ pre) zero v out h = absurd (omega (arith, h))
  set_at (p ∷ pre) (suc i) v out h = ap (λ l. p ∷ l) (set_at pre i v out (omega (arith, h)))

  length_snoc :
      (pre : List (Option Vector)) (v : Option Vector) → length (pre ++ v ∷ []) ≡ suc (length pre)
  length_snoc [] v = refl
  length_snoc (p ∷ pre) v = ap suc (length_snoc pre v)

  abbrev answers : List Runes → List (Option Vector)
  answers = map (λ text. some (f text))

  abbrev missing : List (Runes × ℕ) → List Vector
  missing = map (λ m. f m.0)

  -- The scanned slots, filled with the embeddings of the misses, are the embeddings.
  fill-scan :
      (texts : List Runes) (pre : List (Option Vector)) (i : ℕ) (c0 c : Cache Vector)
      → length pre ≡ i
      → IsTrue c0
      → let r = scan digest model c0 kind i texts in
        (fill digest model kind r.1 (missing r.1) c (pre ++ r.0)).0 ≡ pre ++ answers texts
  unfolding fill scan
  fill-scan [] pre i c0 c h true0 = refl
  fill-scan (text ∷ texts) pre i c0 c h true0 =
      let longer = pre ++ some (f text) ∷ [] in
      let rest = scan digest model c0 kind (suc i) texts in
      let onward = λ (c' : Cache Vector).
        fill-scan texts longer (suc i) c0 c' (length_snoc pre (some (f text)) ∙ ap suc h) true0
        ∙ append_assoc pre (some (f text) ∷ []) (answers texts) in
      elim (Option-cases (get (key text) c0)) [
        | inl e ↦
            rw (e, scan)
              (let c' = put (key text) (f text) c in
                ap (λ l. (fill digest model kind rest.1 (missing rest.1) c' l).0)
                  (set_at pre i (some (f text)) rest.0 h)
                ∙ onward c')
        | inr (vec, e) ↦
            rw (e, scan)
              (ap
                  (λ v.
                    (fill digest model kind rest.1 (missing rest.1) c (pre ++ some v ∷ rest.0)).0)
                  (true0 text vec e)
                ∙ sym (
                    ap (λ l. (fill digest model kind rest.1 (missing rest.1) c l).0)
                      (append_assoc pre (some (f text) ∷ []) rest.0))
                ∙ onward c)
      ]

  module _ (same_key : (s t : Runes) → key s ≡ key t → f s ≡ f t) where
    Holds-put : (c : Cache Vector) (s t : Runes) → Holds c t → Holds (put (key s) (f s) c) t
    unfolding get put
    Holds-put c s t h =
        rw (lookup-insert (key s) (key t) (f s) c.vectors) (elim (Bool-cases (key s =? key t)) [
          | inl e ↦ rw e (ap some (same_key s t (=?→≡ (key s) (key t) e)))
          | inr e ↦ rw e h
        ])

    put-Holds : (c : Cache Vector) (s : Runes) → Holds (put (key s) (f s) c) s
    unfolding get put
    put-Holds c s = rw (lookup-insert (key s) (key s) (f s) c.vectors) (rw (=?_refl (key s)) refl)

    put-IsTrue : (c : Cache Vector) (s : Runes) → IsTrue c → IsTrue (put (key s) (f s) c)
    unfolding get put
    put-IsTrue c s true_c t vec h =
        let h' = rw (lookup-insert (key s) (key t) (f s) c.vectors) at h in
        elim (Bool-cases (key s =? key t)) [
          | inl e ↦
              let same = rw e at h' in
              let fs : f s ≡ f t = same_key s t (=?→≡ (key s) (key t) e) in cc
          | inr e ↦ true_c t vec (rw e at h')
        ]

    -- Filling keeps what is cached true and what it holds, and holds what was missing.
    fill_keeps :
        (misses : List (Runes × ℕ)) (c : Cache Vector) (out : List (Option Vector)) (t : Runes)
        → Holds c t
        → Holds (fill digest model kind misses (missing misses) c out).1 t
    unfolding fill
    fill_keeps [] c out t h = h
    fill_keeps (m ∷ misses) c out t h =
        fill_keeps misses (put (key m.0) (f m.0) c) (set out m.1 (some (f m.0))) t
          (Holds-put c m.0 t h)

    fill-IsTrue :
        (misses : List (Runes × ℕ)) (c : Cache Vector) (out : List (Option Vector))
        → IsTrue c
        → IsTrue (fill digest model kind misses (missing misses) c out).1
    unfolding fill
    fill-IsTrue [] c out h = h
    fill-IsTrue (m ∷ misses) c out h =
        fill-IsTrue misses (put (key m.0) (f m.0) c) (set out m.1 (some (f m.0)))
          (put-IsTrue c m.0 h)

    fill-Holds :
        (misses : List (Runes × ℕ)) (c : Cache Vector) (out : List (Option Vector))
        → All (λ m. Holds (fill digest model kind misses (missing misses) c out).1 m.0) misses
    unfolding fill
    fill-Holds [] c out = tt
    fill-Holds (m ∷ misses) c out =
        let c' = put (key m.0) (f m.0) c in
        let out' = set out m.1 (some (f m.0)) in
        (fill_keeps misses c' out' m.0 (put-Holds c m.0), fill-Holds misses c' out')

    scan_held :
        (texts : List Runes) (i : ℕ) (c : Cache Vector)
        → All (Holds c) texts
        → scan digest model c kind i texts ≡ (answers texts, [])
    unfolding scan
    scan_held [] i c h = refl
    scan_held (text ∷ texts) i c h =
        rw (h.0, scan)
          (λ j. let rest = scan_held texts (suc i) c h.1 j in (some (f text) ∷ rest.0, rest.1))

    scan_covers :
        (texts : List Runes) (i : ℕ) (c0 c : Cache Vector)
        → IsTrue c0
        → ((t : Runes) → Holds c0 t → Holds c t)
        → All (λ m. Holds c m.0) (scan digest model c0 kind i texts).1
        → All (Holds c) texts
    unfolding scan
    scan_covers [] i c0 c true0 kept h = tt
    scan_covers (text ∷ texts) i c0 c true0 kept h = elim (Option-cases (get (key text) c0)) [
      | inl e ↦ let h' = rw (e, scan) at h in (h'.0, scan_covers texts (suc i) c0 c true0 kept h'.1)
      | inr (vec, e) ↦
          let h' = rw (e, scan) at h in
          (kept text (e ∙ ap some (true0 text vec e)), scan_covers texts (suc i) c0 c true0 kept h')
    ]

    missing_map : (misses : List (Runes × ℕ)) → map f (map (λ m. m.0) misses) ≡ missing misses
    missing_map [] = refl
    missing_map (m ∷ misses) = ap (λ l. f m.0 ∷ l) (missing_map misses)

    as_many : (misses : List (Runes × ℕ)) → (length (missing misses) == length misses) ≡ true
    as_many [] = refl
    as_many (m ∷ misses) = ground (arith, as_many misses)

    store_filled_fills :
        (out : List (Option Vector)) (misses : List (Runes × ℕ)) (c : Cache Vector)
        → let r = fill digest model kind misses (missing misses) c out in
          store_filled digest model kind out misses (some (missing misses)) c ≡ (embedded r.0, r.1)
    unfolding store_filled
    store_filled_fills out misses c = rw (as_many misses)

    module _ {World : Type 0} (filler : Filler Vector World)
        (fills : (texts : List Runes) (w : World)
          → (fill_misses filler kind texts w).0 ≡ some (map f texts)) where
      -- After the scan: the filled slots, in the filled cache.
      embed_scanned_fills :
          (out : List (Option Vector)) (misses : List (Runes × ℕ)) (c : Cache Vector) (w : World)
          → let r = embed_scanned digest model (some filler) kind (out, misses) c w in
            let q = fill digest model kind misses (missing misses) c out in
            (r.0 ≡ embedded q.0) × (r.1 ≡ q.1)
      unfolding embed_scanned embed_missing fill
      embed_scanned_fills out [] c w = (refl, refl)
      embed_scanned_fills out (m ∷ misses) c w =
          let all = m ∷ misses in
          let given = fills (map (λ n. n.0) all) w ∙ ap some (missing_map all) in
          let done =
            ap (λ a. store_filled digest model kind out all a c) given
            ∙ store_filled_fills out all c in
          (ap (λ r. r.0) done, ap (λ r. r.1) done)

      -- Where texts with the same key have the same embedding, the filler embeds every text, and
      -- every cached vector is the embedding of the texts with its key: the answer is the list of
      -- the embeddings of the texts, in order, as without a cache. The cached vectors stay true, and
      -- from then on the same texts get the same answer with no filler at all.
      pub embed_cached_answers :
          (texts : List Runes) (c : Cache Vector) (w : World)
          → IsTrue c
          → let r = embed_cached digest model (some filler) kind texts c w in
            (r.0 ≡ embedded (map (λ text. some (f text)) texts))
            × IsTrue r.1
            × ((w' : World)
                → embed_cached digest model none kind texts r.1 w'
                  ≡ (embedded (map (λ text. some (f text)) texts), r.1, w'))
      unfolding embed_cached
      embed_cached_answers texts c w true_c =
          let sc = scan digest model c kind 0 texts in
          let q = fill digest model kind sc.1 (missing sc.1) c sc.0 in
          let fills_it = embed_scanned_fills sc.0 sc.1 c w in
          let held : All (Holds q.1) texts =
            scan_covers texts 0 c q.1 true_c (λ t. fill_keeps sc.1 c sc.0 t)
              (fill-Holds sc.1 c sc.0) in
          (
            fills_it.0 ∙ ap embedded (fill-scan texts [] 0 c c refl true_c),
            rw fills_it.1 (fill-IsTrue sc.1 c sc.0 true_c),
            λ w'. rw fills_it.1 (rw (scan_held texts 0 q.1 held) refl),
          )
