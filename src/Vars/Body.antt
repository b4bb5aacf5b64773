-- ===== src/Vars/Body.antt =====
-- The length of a body or its chunks, and the body scheduler that is told of it.
use upsgi.Common.{
  ℕ, ◌≤◌, ◌<◌, ◌≡◌, refl, ◌∙◌, arith, Bool, true, false, not, ◌&&◌, ◌||◌, List, Option, none, some,
  ltb, if◌then◌else◌,
}
use upsgi.BodySched.Types.{State}
use upsgi.BodySched.Valid.{IsValid, note_request-IsValid}
use upsgi.BodySched.Ops.{note_request}
use upsgi.Vars.Types.{Settings, Wsgi}
use upsgi.Vars.Hooks
use upsgi.Common.Text.{codes}
use upsgi.Http.Names.{same_name}
use upsgi.Wire.Length.{get_content_length}

-- one framing of the body, a registered request if there is a body, and a core that counts it
pub record IsFramed (limit_post : ℕ) (has_length : Bool) (s : State) : Type 0 where
  pub once : (has_length && s.0.body_is_chunked) ≡ false
  pub no_length : has_length ≡ false → s.0.post_cl ≡ 0
  pub within : 0 < limit_post → s.0.post_cl ≤ limit_post
  pub known : (ltb 0 s.0.post_cl || s.0.body_is_chunked) ≡ true → s.0.registered ≡ true
  pub valid : IsValid s

-- telling the scheduler keeps the framing, and registers a request with a body
note_request_framing :
    (enabled : Bool) (now : ℕ) (s : State)
    → let s' = note_request enabled now s in
      (s'.0.post_cl ≡ s.0.post_cl)
      × (s'.0.body_is_chunked ≡ s.0.body_is_chunked)
      × ((ltb 0 s.0.post_cl || s.0.body_is_chunked) ≡ true → s'.0.registered ≡ true)
unfolding note_request
note_request_framing enabled now s = (ground arith, ground arith, λ h. ground arith)

-- a new framing of a body, once the scheduler is told of it
note_request-IsFramed :
    (limit : ℕ) (enabled : Bool) (now : ℕ) (has : Bool) (s : State)
    → IsValid s
    → (has && s.0.body_is_chunked) ≡ false
    → (has ≡ false → s.0.post_cl ≡ 0)
    → (0 < limit → s.0.post_cl ≤ limit)
    → IsFramed limit has (note_request enabled now s)
note_request-IsFramed limit enabled now has s v a b c =
    let (p, q, r) = note_request_framing enabled now s in
    record {
      once = ground (arith, p, q, a);
      no_length = λ h. p ∙ b h;
      within = λ h. omega (arith, p, c h);
      known = λ h. r (ground (arith, p, q, h));
      valid = note_request-IsValid enabled now s v;
    }

with_length-IsValid :
    (cl : ℕ) (s : State) → IsValid s → IsValid (record (s.0) { post_cl = cl }, s.1)
with_length-IsValid cl s v = ground arith

with_chunks-IsValid :
    (s : State) → IsValid s → IsValid (record (s.0) { body_is_chunked = true }, s.1)
with_chunks-IsValid s v = ground arith

-- a request whose body is framed
abbrev pub Framed : Settings → Wsgi → Type 0
Framed o w = IsFramed o.limit_post w.has_content_length w.sched

-- what a hook leaves of the framing, if it does not fail
abbrev pub framing : Wsgi → Bool × State
framing w = (w.has_content_length, w.sched)

abbrev pub framing_of : Option Wsgi → Option (Bool × State)
framing_of none = none
framing_of (some w) = some (framing w)

abbrev pub AllFramed : ℕ → Option (Bool × State) → Type 0
AllFramed limit none = Unit
AllFramed limit (some f) = IsFramed limit f.0 f.1

AllFramed-if :
    (limit : ℕ) (b : Bool) (r : Option Wsgi)
    → (b ≡ false → AllFramed limit (framing_of r))
    → AllFramed limit (framing_of (if b then none else r))
AllFramed-if limit true r h = tt
AllFramed-if limit false r h = h refl

with_length-Framed :
    (o : Settings) (cl : ℕ) (w : Wsgi)
    → Framed o w
    → AllFramed o.limit_post (framing_of (Hooks.with_length o cl w))
unfolding Hooks.with_length Hooks.note_body
with_length-Framed o cl w v = AllFramed-if o.limit_post w.sched.0.body_is_chunked _ λ c.
    AllFramed-if o.limit_post (ltb 0 o.limit_post && ltb o.limit_post cl) _
      λ l. noted (ltb 0 cl) refl c (ground arith)
  where
    s : State
    s = (record (w.sched.0) { post_cl = cl }, w.sched.1)

    noted :
        (b : Bool)
        → ltb 0 cl ≡ b
        → w.sched.0.body_is_chunked ≡ false
        → (0 < o.limit_post → cl ≤ o.limit_post)
        → Framed o (
            if b
            then record w {
              has_content_length = true;
              sched = note_request o.body_scheduler o.now s;
            }
            else record w { has_content_length = true; sched = s })
    noted true z c l =
        note_request-IsFramed o.limit_post o.body_scheduler o.now true s
          (with_length-IsValid cl w.sched v.valid) c (λ h. absurd (ground arith)) l
    noted false z c l = record {
      once = c;
      no_length = λ h. absurd (ground arith);
      within = l;
      known = λ h. absurd (ground arith);
      valid = with_length-IsValid cl w.sched v.valid;
    }

pub set_content_length-Framed :
    (o : Settings) (buf : List ℕ) (w : Wsgi)
    → Framed o w
    → AllFramed o.limit_post (framing_of (Hooks.set_content_length o buf w))
unfolding Hooks.set_content_length
set_content_length-Framed o buf w v =
    elim (get_content_length buf)
      as (λ c.
        AllFramed o.limit_post
          (framing_of (elim c [ none ↦ none | some cl ↦ Hooks.with_length o cl w ]))) [
            | none ↦ tt
            | some cl ↦ with_length-Framed o cl w v
          ]

pub set_chunked-Framed :
    (o : Settings) (buf : List ℕ) (w : Wsgi)
    → Framed o w
    → AllFramed o.limit_post (framing_of (Hooks.set_chunked o buf w))
unfolding Hooks.set_chunked Hooks.note_body
set_chunked-Framed o buf w v = chunks (not (same_name buf (codes "chunked")))
  where
    s : State
    s = (record (w.sched.0) { body_is_chunked = true }, w.sched.1)

    chunks :
        (b : Bool)
        → AllFramed o.limit_post (
            framing_of (
              if b
              then some w
              else if w.has_content_length
              then none
              else some (record w { sched = note_request o.body_scheduler o.now s })))
    chunks true = v
    chunks false = AllFramed-if o.limit_post w.has_content_length _ λ h.
        note_request-IsFramed o.limit_post o.body_scheduler o.now w.has_content_length s
          (with_chunks-IsValid w.sched v.valid) (ground arith) v.no_length v.within
