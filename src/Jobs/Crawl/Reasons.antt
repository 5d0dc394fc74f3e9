-- ===== src/Jobs/Crawl/Reasons.antt =====
-- Why the crawl worker of stack/backend/internal/crawljob/crawljob.go may acknowledge a delivery.
use truth_in_stream.Prelude.{
  ℕ, ◌-◌, String, Bool, true, false, List, [], ◌∷◌, Some, none, some, length, pos, le_int,
  is_negative, next_int, not, ◌=?◌, =?→≡, Option-cases, ◌≡◌, refl, ◌⊎◌, inl, inr,
}
use truth_in_stream.Corpus.{EvidenceChunk, embedding_dim, valid_kind}
use truth_in_stream.Jobs.Broker.{
  Delivery, Fate, ack_it, republish_it, requeue_it, Effect, answered, unanswered, stored, unstored,
  upserted, unupserted, republished, acked, nacked,
}
use truth_in_stream.Jobs.Embedding.Faults.{IsUnknown, IsAnswer, fault, last_fault}
use truth_in_stream.Jobs.Crawl.{
  CrawlJob, CrawlFault, CrawlJson, CrawlConfig, max_int32, validate, valid_job, format_int,
  retry_of, decode,
}

-- One of the conditions of a valid job does not hold.
abbrev pub IsFaulty : CrawlJob → Type 0
IsFaulty job =
    (le_int job.page_id (pos 0) ≡ true)
    ⊎ (is_negative job.chunk_index ≡ true)
    ⊎ (le_int job.chunk_index max_int32 ≡ false)
    ⊎ (job.content ≡ "")
    ⊎ (job.corpus ≡ "")
    ⊎ (valid_kind job.kind ≡ false)
    ⊎ (is_negative job.revision_id ≡ true)
    ⊎ (is_negative job.attempt ≡ true)

negated : (b : Bool) → not b ≡ true → b ≡ false
negated true h = cc
negated false h = refl

validate-IsFaulty : (job : CrawlJob) (bad : CrawlFault) → validate job ≡ some bad → IsFaulty job
unfolding validate
validate-IsFaulty job bad h =
    fault (le_int job.page_id (pos 0)) _ _ _ h (λ e. e)
      (λ h1.
        fault (is_negative job.chunk_index) _ _ _ h1 (λ e. e)
          (λ h2. fault (not (le_int job.chunk_index max_int32)) _ _ _ h2 (negated _) (λ h3.
            fault (job.content =? "") _ _ _ h3 (=?→≡ job.content "") (λ h4.
              fault (job.corpus =? "") _ _ _ h4 (=?→≡ job.corpus "") (λ h5.
                fault (not (valid_kind job.kind)) _ _ _ h5 (negated _) (λ h6.
                  fault (is_negative job.revision_id) _ _ _ h6 (λ e. e)
                    (λ h7. last_fault (is_negative job.attempt) _ _ h7)))))))

-- The body is no job, or a faulty one.
abbrev pub IsUnreadable : {Body : Type 0} → CrawlJson Body → Body → Type 0
IsUnreadable json body =
    (json.unmarshal body ≡ none)
    ⊎ ((job : CrawlJob) × (json.unmarshal body ≡ some job) × IsFaulty job)

pub decode-IsUnreadable :
    {Body : Type 0} (json : CrawlJson Body) (body : Body)
    → decode json body ≡ none
    → IsUnreadable json body
unfolding decode valid_job
decode-IsUnreadable json body h = elim (Option-cases (json.unmarshal body)) [
  | inl e ↦ inl e
  | inr (job, e) ↦
      let valid = rw (e, decode) at h in
      elim (Option-cases (validate job)) [
        | inl f ↦ let never = rw (f, valid_job) at valid in cc
        | inr (bad, f) ↦ inr (job, e, validate-IsFaulty job bad f)
      ]
]

module _ {Value Body : Type 0} (json : CrawlJson Body) (w : CrawlConfig) where
  -- The chunk of the job, with a vector of the right length.
  abbrev pub IsChunkOf : CrawlJob → EvidenceChunk String Value → Type 0
  IsChunkOf job c =
      (vec : List Value) × (length vec ≡ embedding_dim)
      × (c ≡ record {
        source = job.corpus;
        external_id = format_int job.page_id;
        chunk_index = job.chunk_index;
        title = job.title;
        url = job.url;
        content = job.content;
        kind = job.kind;
        metadata = some (record { revision_id = job.revision_id; section = job.section });
        embedding = vec;
      })

  abbrev pub Upserts : CrawlJob → Effect Value Body → Type 0
  Upserts job (upserted c) = IsChunkOf job c
  Upserts job _ = ⊥

  -- The job was sent for another try, its attempt counted, at the priority that it had.
  abbrev pub Resends : CrawlJob → ℕ → Effect Value Body → Type 0
  Resends job priority (republished body p) =
      (p ≡ priority) × (json.marshal (record job { attempt = next_int job.attempt }) ≡ some body)
  Resends job priority _ = ⊥

  -- The client did not answer the text with one vector of the right length.
  abbrev pub Misshapes : String → Effect Value Body → Type 0
  Misshapes content (answered texts vectors) = (texts ≡ content ∷ []) × ¬ IsAnswer vectors
  Misshapes content _ = ⊥

  -- A try of the job failed: the client did not answer for its text, or its chunk, with a vector of
  -- the right length, was not upserted.
  abbrev pub Fails : CrawlJob → Effect Value Body → Type 0
  Fails job (unanswered texts) = texts ≡ job.content ∷ []
  Fails job (unupserted c) = IsChunkOf job c
  Fails job _ = ⊥

  -- Why a delivery may be acknowledged after these effects, `done` being whether the context is done.
  pub data Reason (d : Delivery Body) (done : Bool) (t : List (Effect Value Body)) : Type 0 where
    unknown_version : IsUnknown w.known_versions d.version → Reason d done t
    unreadable : IsUnreadable json d.body → Reason d done t
    written :
        (job : CrawlJob) → decode json d.body ≡ some job → Some (Upserts job) t → Reason d done t
    resent :
        (job : CrawlJob)
        → decode json d.body ≡ some job
        → le_int (pos (w.max_attempts - 1)) job.attempt ≡ false
        → Some (Fails job) t
        → Some (Resends job d.priority) t
        → Reason d done t
    misshapen :
        (job : CrawlJob)
        → decode json d.body ≡ some job
        → Some (Misshapes job.content) t
        → Reason d done t
    spent :
        (job : CrawlJob)
        → decode json d.body ≡ some job
        → le_int (pos (w.max_attempts - 1)) job.attempt ≡ true
        → Some (Fails job) t
        → done ≡ false
        → Reason d done t
    unencodable :
        (job : CrawlJob)
        → decode json d.body ≡ some job
        → le_int (pos (w.max_attempts - 1)) job.attempt ≡ false
        → Some (Fails job) t
        → done ≡ false
        → json.marshal (record job { attempt = next_int job.attempt }) ≡ none
        → Reason d done t

  -- Every acknowledgement has its reason in the effects before it.
  abbrev pub Sound : List (Effect Value Body) → Type 0
  Sound [] = Unit
  Sound (acked d done ∷ t) = Reason d done t × Sound t
  Sound (nacked d ∷ t) = Sound t
  Sound (answered texts vectors ∷ t) = Sound t
  Sound (unanswered texts ∷ t) = Sound t
  Sound (stored staging chunks ∷ t) = Sound t
  Sound (unstored staging chunks ∷ t) = Sound t
  Sound (upserted chunk ∷ t) = Sound t
  Sound (unupserted chunk ∷ t) = Sound t
  Sound (republished body priority ∷ t) = Sound t

  -- The action is fit for the delivery after these effects.
  abbrev pub Fits : Delivery Body → Bool → List (Effect Value Body) → Fate Body → Type 0
  Fits d done t ack_it = Reason d done t
  Fits d done t (republish_it body priority) =
      (job : CrawlJob) × (decode json d.body ≡ some job)
      × (priority ≡ d.priority)
      × (le_int (pos (w.max_attempts - 1)) job.attempt ≡ false)
      × Some (Fails job) t
      × (json.marshal (retry_of job) ≡ some body)
  Fits d done t requeue_it = Unit
