-- ===== src/Vars/Framing.antt =====
-- The framing of the body, over the checks of the variables and the loop.
use upsgi.Common.{
  ℕ, zero, suc, ◌≡◌, ◌⊎◌, inl, inr, sym, arith, Bool, true, false, List, ◌++◌, Option, none, some,
  ltb, leb, ◌==◌, if◌then◌else◌, length, take, drop,
}
use upsgi.BodySched.Types.{State}
use upsgi.Wire.Parse.{read16}
use upsgi.Vars.Types.{Settings, Wsgi}
use upsgi.Vars.Hooks
use upsgi.Common.Text.{codes}
use upsgi.Wire.Range.{equal}
use mathlib.Core.Path.{subst}
use upsgi.Vars.Parse.{
  Result, accepted, refused, stuck, push_iovec, add_var, parse_value, parse_vars_loop, parse_vars,
}
use upsgi.Vars.Body.{
  IsFramed, Framed, framing, framing_of, AllFramed, set_content_length-Framed, set_chunked-Framed,
}

module _ (o : Settings) (behind key buf : List ℕ) (w : Wsgi) where
  framing-check_5 : framing (Hooks.check_5 key buf w) ≡ framing w
  unfolding Hooks.check_5
  framing-check_5 = ground arith

  framing-check_9 : framing (Hooks.check_9 key buf w) ≡ framing w
  unfolding Hooks.check_9
  framing-check_9 = ground arith

  framing-check_10 : framing (Hooks.check_10 o behind key buf w) ≡ framing w
  unfolding Hooks.check_10
  framing-check_10 = ground arith

  framing-check_11 : framing (Hooks.check_11 key buf w) ≡ framing w
  unfolding Hooks.check_11
  framing-check_11 = ground arith

  framing-check_12 : framing (Hooks.check_12 o key buf w) ≡ framing w
  unfolding Hooks.check_12 Hooks.set_environment
  framing-check_12 = ground arith

  framing-check_13 : framing (Hooks.check_13 key buf w) ≡ framing w
  unfolding Hooks.check_13
  framing-check_13 = ground arith

  framing-check_15 : framing (Hooks.check_15 key buf w) ≡ framing w
  unfolding Hooks.check_15
  framing-check_15 = ground arith

  framing-check_18 : framing (Hooks.check_18 key buf w) ≡ framing w
  unfolding Hooks.check_18
  framing-check_18 = ground arith

  framing-check_20 : framing (Hooks.check_20 o key buf w) ≡ framing w
  unfolding Hooks.check_20
  framing-check_20 = ground arith

  framing-check_27 : framing (Hooks.check_27 key buf w) ≡ framing w
  unfolding Hooks.check_27
  framing-check_27 = ground arith

  framing-check_14 :
      (framing_of (Hooks.check_14 o key buf w) ≡ some (framing w))
      ⊎ (framing_of (Hooks.check_14 o key buf w) ≡ framing_of (Hooks.set_content_length o buf w))
  unfolding Hooks.check_14
  framing-check_14 = ground arith

  abbrev schemed : Wsgi
  schemed = if equal key (codes "HTTP_X_FORWARDED_PROTO") then record w { scheme = buf } else w

  framing-check_22 :
      (framing_of (Hooks.check_22 o key buf w) ≡ some (framing w))
      ⊎ (framing_of (Hooks.check_22 o key buf w) ≡ framing_of (Hooks.set_chunked o buf schemed))
  unfolding Hooks.check_22
  framing-check_22 = ground arith

  framing-proto_hook :
      (framing_of (Hooks.proto_hook o behind key buf w) ≡ some (framing w))
      ⊎ ((framing_of (Hooks.proto_hook o behind key buf w)
            ≡ framing_of (Hooks.set_content_length o buf w))
          ⊎ (framing_of (Hooks.proto_hook o behind key buf w)
              ≡ framing_of (Hooks.set_chunked o buf schemed)))
  unfolding Hooks.proto_hook
  framing-proto_hook = ground (
    arith, framing-check_5, framing-check_9, framing-check_10, framing-check_11, framing-check_12,
    framing-check_13, framing-check_14, framing-check_15, framing-check_18, framing-check_20,
    framing-check_22, framing-check_27,
  )

  -- no hook breaks the framing
  pub proto_hook-Framed :
      Framed o w → AllFramed o.limit_post (framing_of (Hooks.proto_hook o behind key buf w))
  proto_hook-Framed v =
      let same : framing schemed ≡ framing w = ground arith in
      let v' : Framed o schemed =
        subst (λ (f : Bool × State). IsFramed o.limit_post f.0 f.1) (sym same) v in
      let to =
        λ (r : Option (Bool × State)) (e : framing_of (Hooks.proto_hook o behind key buf w) ≡ r)
            (a : AllFramed o.limit_post r).
          subst (AllFramed o.limit_post) (sym e) a in
      elim framing-proto_hook [
        | inl e ↦ to _ e v
        | inr h ↦ elim h [
          | inl e ↦ to _ e (set_content_length-Framed o buf w v)
          | inr e ↦ to _ e (set_chunked-Framed o buf schemed v')
        ]
      ]

  abbrev pushes : Wsgi → Option Wsgi
  pushes hooked = elim (push_iovec o key hooked) [
    | none ↦ none
    | some keyed ↦ push_iovec o (Hooks.stored key buf) keyed
  ]

  framing-pushes :
      (hooked : Wsgi)
      → (framing_of (pushes hooked) ≡ none) ⊎ (framing_of (pushes hooked) ≡ some (framing hooked))
  unfolding push_iovec
  framing-pushes hooked = ground arith

  pushes-Framed :
      (hooked : Wsgi) → Framed o hooked → AllFramed o.limit_post (framing_of (pushes hooked))
  pushes-Framed hooked v = elim (framing-pushes hooked) [
    | inl e ↦ subst (AllFramed o.limit_post) (sym e) tt
    | inr e ↦ subst (AllFramed o.limit_post) (sym e) v
  ]

  add_var-Framed : Framed o w → AllFramed o.limit_post (framing_of (add_var o behind key buf w))
  unfolding add_var
  add_var-Framed v =
      elim (Hooks.proto_hook o behind key buf w)
          as (λ r.
            AllFramed o.limit_post (framing_of r)
            → AllFramed o.limit_post
                (framing_of (elim r [ none ↦ none | some hooked ↦ pushes hooked ]))) [
                  | none ↦ λ h. tt
                  | some hooked ↦ λ h. pushes-Framed hooked h
                ]
        (proto_hook-Framed v)

-- an accepted request is framed
data FramedResult (o : Settings) : Result → Type 0 where
  framed : (w : Wsgi) → Framed o w → FramedResult o (accepted w)
  fails : FramedResult o refused
  waits : FramedResult o stuck

FramedResult-accepted : (o : Settings) {w : Wsgi} → FramedResult o (accepted w) → Framed o w
FramedResult-accepted o (framed w v) = v

module _ (o : Settings) (slack : List ℕ) where
  FramedResult-if :
      (b : Bool) (x y : Result)
      → FramedResult o x
      → FramedResult o y
      → FramedResult o (if b then x else y)
  FramedResult-if true x y p q = p
  FramedResult-if false x y p q = q

  parse_value-Framed :
      (next : List ℕ → Wsgi → Result) (key ptrbuf : List ℕ) (w : Wsgi)
      → ((rest : List ℕ) (w' : Wsgi) → Framed o w' → FramedResult o (next rest w'))
      → Framed o w
      → FramedResult o (parse_value o slack next key ptrbuf w)
  unfolding parse_value
  parse_value-Framed next key ptrbuf w n v = FramedResult-if _ refused _ fails (
      FramedResult-if _ refused _ fails (
        elim (add_var o (ptrbuf ++ slack) key (take (read16 ptrbuf) (drop 2 ptrbuf)) w)
            as (λ r.
              AllFramed o.limit_post (framing_of r)
              → FramedResult o (elim r [
                | none ↦ refused
                | some w' ↦ next (drop (read16 ptrbuf) (drop 2 ptrbuf)) w'
              ])) [ none ↦ λ h. fails | some w' ↦ λ h. n _ w' h ]
          (add_var-Framed o (ptrbuf ++ slack) key (take (read16 ptrbuf) (drop 2 ptrbuf)) w v)))

  parse_vars_loop-Framed :
      (fuel : ℕ) (ptrbuf : List ℕ) (w : Wsgi)
      → Framed o w
      → FramedResult o (parse_vars_loop o slack fuel ptrbuf w)
  unfolding parse_vars_loop
  parse_vars_loop-Framed zero ptrbuf w v = waits
  parse_vars_loop-Framed (suc fuel) ptrbuf w v =
      FramedResult-if (length ptrbuf == 0) (accepted w) _ (framed w v) (
        FramedResult-if (leb (length ptrbuf) 2) refused _ fails (
          FramedResult-if (read16 ptrbuf == 0) refused _ fails (
            FramedResult-if (ltb (read16 ptrbuf) (length (drop 2 ptrbuf))) _ _
              (parse_value-Framed (parse_vars_loop o slack fuel)
                (take (read16 ptrbuf) (drop 2 ptrbuf)) (drop (read16 ptrbuf) (drop 2 ptrbuf)) w
                (parse_vars_loop-Framed fuel) v)
              (parse_vars_loop-Framed fuel (drop 2 ptrbuf) w v))))

-- From a request whose framing is sound, as that of a new one is, an accepted packet of variables leaves a
-- sound framing: not both a Content-Length and a chunked body; a body of length 0 without a Content-Length;
-- a length within the limit for posts, if there is one; a request with a length or chunks registered with
-- the body scheduler, and the scheduler's state valid.
pub parse_vars-IsFramed :
    (o : Settings) (slack packet : List ℕ) (w : Wsgi) {w' : Wsgi}
    → IsFramed o.limit_post w.has_content_length w.sched
    → parse_vars o slack packet w ≡ accepted w'
    → IsFramed o.limit_post w'.has_content_length w'.sched
unfolding parse_vars
parse_vars-IsFramed o slack packet w {w'} v e = FramedResult-accepted o (
    subst (FramedResult o) e (
      parse_vars_loop-Framed o slack (suc (length packet)) packet
        (record w { path_info_pos = none; script_name_pos = none }) v))
