-- ===== src/Jobs/Embedding/Faults.antt =====
-- What can be wrong with a message or an answer, for the workers of stack/backend/internal/embedjob
-- and crawljob, said without the tests of the code.
use truth_in_stream.Prelude.{
  String, Bool, true, false, List, [], ◌∷◌, All, any, Option, none, some, Option-cases, length,
  ◌=?◌, =?_refl, =?→≡, is_negative, if◌then◌else◌, arith, ◌≡◌, ◌≢◌, refl, ap, ◌∙◌, Bool-cases, ◌⊎◌,
  inl, inr,
}
use truth_in_stream.Corpus.{embedding_dim}
use truth_in_stream.Jobs.Broker.{knows_version}
use truth_in_stream.Jobs.Embedding.{
  Job, Invalid, Json, validate, valid_job, decode, is_vector, only_vector,
}

-- There is a list of known versions, and this one is not in it.
abbrev pub IsUnknown : List String → String → Type 0
IsUnknown known version = (known ≢ []) × All (λ v. v ≢ version) known

any-All :
    (known : List String) (version : String)
    → any (λ v. v =? version) known ≡ false
    → All (λ v. v ≢ version) known
any-All [] version h = tt
any-All (v ∷ vs) version h = elim (Bool-cases (v =? version)) [
  | inl e ↦ let never = rw e at h in cc
  | inr e ↦ ((λ same. let equal = =?_refl v in cc), any-All vs version (rw e at h))
]

pub knows_version-IsUnknown :
    (known : List String) (version : String)
    → knows_version known version ≡ false
    → IsUnknown known version
unfolding knows_version
knows_version-IsUnknown [] version h = cc
knows_version-IsUnknown (v ∷ vs) version h = ((λ e. cc), any-All (v ∷ vs) version h)

module _ {Value : Type 0} where
  -- One vector of the right length.
  abbrev pub IsAnswer : List (List Value) → Type 0
  IsAnswer vectors = (vec : List Value) × (vectors ≡ vec ∷ []) × (length vec ≡ embedding_dim)

  pub good_length : (vec : List Value) → is_vector vec ≡ true → length vec ≡ embedding_dim
  good_length vec h = ground arith

  pub bad_length : (vec : List Value) → is_vector vec ≡ false → length vec ≢ embedding_dim
  bad_length vec h e = let never = rw e at h in cc

  pub only_vector-IsAnswer :
      (vectors : List (List Value)) → only_vector vectors ≡ none → ¬ IsAnswer vectors
  unfolding only_vector
  only_vector-IsAnswer [] h (vec, e, l) = cc
  only_vector-IsAnswer (v ∷ []) h (vec, e, l) =
      let same : v ≡ vec = cc in
      let right : length v ≡ embedding_dim = ap length same ∙ l in let never = rw right at h in cc
  only_vector-IsAnswer (v ∷ u ∷ more) h (vec, e, l) = cc

-- The job has no source, id or content, or its index or its attempt is negative.
abbrev pub IsFaulty : Job → Type 0
IsFaulty job =
    (job.source ≡ "")
    ⊎ (job.external_id ≡ "")
    ⊎ (is_negative job.chunk_index ≡ true)
    ⊎ (job.content ≡ "")
    ⊎ (is_negative job.attempt ≡ true)

-- The first test fails, or what follows does.
pub fault :
    {E P Q : Type 0} (test : Bool) (e bad : E) (rest : Option E)
    → (if test then some e else rest) ≡ some bad
    → (test ≡ true → P)
    → (rest ≡ some bad → Q)
    → P ⊎ Q
fault true e bad rest h p q = inl (p refl)
fault false e bad rest h p q = inr (q h)

pub last_fault :
    {E : Type 0} (test : Bool) (e bad : E)
    → (if test then some e else none) ≡ some bad
    → test ≡ true
last_fault true e bad h = refl
last_fault false e bad h = cc

validate-IsFaulty : (job : Job) (bad : Invalid) → validate job ≡ some bad → IsFaulty job
unfolding validate
validate-IsFaulty job bad h = fault (job.source =? "") _ _ _ h (=?→≡ job.source "") (λ h1.
    fault (job.external_id =? "") _ _ _ h1 (=?→≡ job.external_id "") (λ h2.
      fault (is_negative job.chunk_index) _ _ _ h2 (λ e. e)
        (λ h3.
          fault (job.content =? "") _ _ _ h3 (=?→≡ job.content "")
            (λ h4. last_fault (is_negative job.attempt) _ _ h4))))

module _ {Body : Type 0} (json : Json Body) where
  -- The body is no job, or a faulty one.
  abbrev pub IsUnreadable : Body → Type 0
  IsUnreadable body =
      (json.unmarshal body ≡ none) ⊎ ((job : Job) × (json.unmarshal body ≡ some job) × IsFaulty job)

  pub decode-IsUnreadable : (body : Body) → decode json body ≡ none → IsUnreadable body
  unfolding decode valid_job
  decode-IsUnreadable body h = elim (Option-cases (json.unmarshal body)) [
    | inl e ↦ inl e
    | inr (job, e) ↦
        let valid = rw (e, decode) at h in
        elim (Option-cases (validate job)) [
          | inl f ↦ let never = rw (f, valid_job) at valid in cc
          | inr (bad, f) ↦ inr (job, e, validate-IsFaulty job bad f)
        ]
  ]
