-- ===== src/Decoder/Field/Decode/Built.antt =====
-- What a call of fld_cls_decode builds and keeps.
use mathlib.Core.Path.{subst}
use actf.Common.{
  ℕ, ◌≤◌, ◌<◌, ◌≡◌, ◌≢◌, refl, ◌∙◌, inl, inr, true, Bool-cases, ◌==◌, Option, none, some, arith,
}
use actf.Types.{Result, ok, err}
use actf.Decoder.{Decoder, do_align}
use actf.Decoder.Scalar.{Fld}
use actf.Decoder.Clock.{EventState, RoleState, handle_fld_roles}
use actf.Decoder.Str.{Ran}
use actf.Decoder.Str as Str
use actf.Decoder.FldCls.{FldCls, fld_cls_roles, clk_cls}
use actf.Decoder.Field.{Field, DecState, Done, ended, overrun, endless, then_done, done, put}
use actf.Decoder.Field.Locate.{Found, at, null, circle, Len, len, no_len}
use actf.Decoder.Field.Decode.{
  write_leaf, write_real, is_unsupported, write_ran, with_located, with_len, with_roles, aligned,
  fld_of, after_roles, role_state,
}
use actf.Decoder.Field.Decode.Kinds.{Kind, Gives, Runs}
use actf.Decoder.Field.Decode.Frame.{IsLeaf}

-- The fields that `Stays` tells of are as before, and no address is given back.
pub record Kept (Stays : ℕ → Type 0) (s s' : DecState) : Type 0 where
  pub grows : s.top ≤ s'.top
  pub same : (c : ℕ) → c < s.top → Stays c → s'.store c ≡ s.store c

pub Kept-trans :
    (Stays : ℕ → Type 0) (s t u : DecState) → Kept Stays s t → Kept Stays t u → Kept Stays s u
Kept-trans P s t u k l = record {
  grows = omega (arith, k.grows, l.grows);
  same = λ c h p. l.same c (omega (arith, h, k.grows)) p ∙ k.same c h p;
}

-- Fewer fields of which is claimed that they stay.
pub Kept-weaken :
    (P Q : ℕ → Type 0) (s t : DecState)
    → ((c : ℕ) → c < s.top → Q c → P c)
    → Kept P s t
    → Kept Q s t
Kept-weaken P Q s t f k = record { grows = k.grows; same = λ c h q. k.same c h (f c h q) }

pub Kept-rfl : (P : ℕ → Type 0) (s : DecState) → Kept P s s
Kept-rfl P s = record { grows = omega arith; same = λ c h p. refl }

-- A call that succeeds keeps what stays and reaches the goal; one that fails keeps what stays.
-- Nothing is said where a string is read behind the bytes or a location leads in a circle.
abbrev pub Ends : (ℕ → Type 0) → (DecState → Type 0) → DecState → Done → Type 0
Ends P Goal s (ended (ok u, s')) = Kept P s s' × Goal s'
Ends P Goal s (ended (err rc, s')) = Kept P s s'
Ends P Goal s overrun = Unit {0}
Ends P Goal s endless = Unit {0}

-- What a state that was kept so far goes on with.
pub Ends-from :
    (P : ℕ → Type 0) (Goal : DecState → Type 0) (s t : DecState) (d : Done)
    → Kept P s t
    → Ends P Goal t d
    → Ends P Goal s d
Ends-from P Goal s t (ended (ok u, s')) k (l, g) = (Kept-trans P s t s' k l, g)
Ends-from P Goal s t (ended (err rc, s')) k l = Kept-trans P s t s' k l
Ends-from P Goal s t overrun k l = tt
Ends-from P Goal s t endless k l = tt

pub Ends-weaken :
    (P Q : ℕ → Type 0) (Goal Goal' : DecState → Type 0) (s : DecState) (d : Done)
    → ((c : ℕ) → c < s.top → Q c → P c)
    → ((s' : DecState) → Kept P s s' → Goal s' → Goal' s')
    → Ends P Goal s d
    → Ends Q Goal' s d
Ends-weaken P Q G H s (ended (ok u, s')) f g (k, h) = (Kept-weaken P Q s s' f k, g s' k h)
Ends-weaken P Q G H s (ended (err rc, s')) f g k = Kept-weaken P Q s s' f k
Ends-weaken P Q G H s overrun f g k = tt
Ends-weaken P Q G H s endless f g k = tt

-- A call, and what follows it.
pub Ends-then :
    (P Q : ℕ → Type 0) (Mid Goal : DecState → Type 0) (s : DecState) (d : Done)
    (next : DecState → Done)
    → Ends P Mid s d
    → ((c : ℕ) → c < s.top → Q c → P c)
    → ((t : DecState) → Kept P s t → Mid t → Ends Q Goal t (next t))
    → Ends Q Goal s (then_done d next)
Ends-then P Q Mid Goal s (ended (ok u, t)) next (k, m) f n =
    Ends-from Q Goal s t (next t) (Kept-weaken P Q s t f k) (n t k m)
Ends-then P Q Mid Goal s (ended (err rc, t)) next k f n = Kept-weaken P Q s t f k
Ends-then P Q Mid Goal s overrun next k f n = tt
Ends-then P Q Mid Goal s endless next k f n = tt

abbrev pub Other : ℕ → ℕ → Type 0
Other a c = a ≢ c

pub put-Kept : (a : ℕ) (f : Field) (s : DecState) → Kept (Other a) s (put a f s)
put-Kept a f s = record { grows = omega arith; same = λ c h p. ground (arith, p) }

-- The value of a field without parts.
pub write_leaf-Ends :
    (k : Kind) (cls : FldCls) (a : ℕ) (s : DecState) (p : Result Fld × Decoder)
    → Gives k p.0
    → (s.store a).cls ≡ some cls
    → Ends
        (Other a)
        (λ t. IsLeaf k cls (t.store a) × ((t.store a).parent ≡ (s.store a).parent))
        s
        (write_leaf a s p)
write_leaf-Ends k cls a s (ok fld, dec) g c =
    let same : (a == a) ≡ true = ground arith in
    (
      record { grows = omega arith; same = λ c h p. ground (arith, p) },
      rw same (record { fld = fld; value = refl; kind = g; classed = c }, refl),
    )
write_leaf-Ends k cls a s (err rc, dec) g c = record { grows = omega arith; same = λ c h p. refl }

pub write_real-Ends :
    (k : Kind) (cls : FldCls) (a : ℕ) (s : DecState) (p : Result Fld × Decoder)
    → Gives k p.0
    → (s.store a).cls ≡ some cls
    → Ends
        (Other a)
        (λ t. IsLeaf k cls (t.store a) × ((t.store a).parent ≡ (s.store a).parent))
        s
        (write_real a s p)
write_real-Ends k cls a s (ok fld, dec) g c = write_leaf-Ends k cls a s (ok fld, dec) g c
write_real-Ends k cls a s (err rc, dec) g c = elim (Bool-cases (is_unsupported rc)) [
  | inl e ↦ rw e (record { grows = omega arith; same = λ c h p. ground (arith, p) })
  | inr e ↦ rw e (record { grows = omega arith; same = λ c h p. refl })
]

pub write_ran-Ends :
    (k : Kind) (cls : FldCls) (a : ℕ) (s : DecState) (r : Ran)
    → Runs k r
    → (s.store a).cls ≡ some cls
    → Ends
        (Other a)
        (λ t. IsLeaf k cls (t.store a) × ((t.store a).parent ≡ (s.store a).parent))
        s
        (write_ran a s r)
write_ran-Ends k cls a s (Str.ended p) g c = write_leaf-Ends k cls a s p g c
write_ran-Ends k cls a s Str.overrun g c = tt

pub with_located-Ends :
    (P : ℕ → Type 0) (Goal : DecState → Type 0) (s : DecState) (f : Found)
    (next : Option Fld → Done)
    → ((o : Option Fld) → Ends P Goal s (next o))
    → Ends P Goal s (with_located s f next)
with_located-Ends P Goal s (at a) next h = h (some (fld_of (s.store a).value))
with_located-Ends P Goal s null next h = h none
with_located-Ends P Goal s circle next h = tt

pub with_len-Ends :
    (P : ℕ → Type 0) (Goal : DecState → Type 0) (s : DecState) (l : Len) (next : ℕ → Done)
    → ((n : ℕ) → Ends P Goal s (next n))
    → Ends P Goal s (with_len s l next)
with_len-Ends P Goal s (len (ok n)) next h = h n
with_len-Ends P Goal s (len (err rc)) next h = Kept-rfl P s
with_len-Ends P Goal s no_len next h = tt

-- What comes after a step that keeps less.
pub Ends-after :
    (P Q : ℕ → Type 0) (Goal Goal' : DecState → Type 0) (s t : DecState) (d : Done)
    → Kept P s t
    → ((c : ℕ) → c < s.top → P c → Q c)
    → ((u : DecState) → Kept Q t u → Goal u → Goal' u)
    → Ends Q Goal t d
    → Ends P Goal' s d
Ends-after P Q G H s t (ended (ok u, v)) k f g (l, h) = (
  record {
    grows = omega (arith, k.grows, l.grows);
    same = λ c q p. l.same c (omega (arith, q, k.grows)) (f c q p) ∙ k.same c q p;
  },
  g v l h,
)
Ends-after P Q G H s t (ended (err rc, v)) k f g l = record {
  grows = omega (arith, k.grows, l.grows);
  same = λ c q p. l.same c (omega (arith, q, k.grows)) (f c q p) ∙ k.same c q p;
}
Ends-after P Q G H s t overrun k f g l = tt
Ends-after P Q G H s t endless k f g l = tt

-- Roles change no field.
abbrev pub with_states : DecState → Decoder → EventState → DecState
with_states s d e = record s { dec = d; ev_s = e }

after_roles-Ends :
    (P : ℕ → Type 0) (Goal : DecState → Type 0) (s : DecState) (p : Result (Unit {0}) × RoleState)
    (next : DecState → Done)
    → ((d : Decoder) (e : EventState) → Ends P Goal (with_states s d e) (next (with_states s d e)))
    → Ends P Goal s (then_done (after_roles s p) next)
after_roles-Ends P Goal s (ok u, r) next h =
    let t = with_states s (record s.dec { pkt_s = r.pkt_s }) r.ev_s in
    Ends-from P Goal s t (next t) (record { grows = omega arith; same = λ c h p. refl })
      (h (record s.dec { pkt_s = r.pkt_s }) r.ev_s)
after_roles-Ends P Goal s (err rc, r) next h = record { grows = omega arith; same = λ c h p. refl }

pub with_roles-Ends :
    (P : ℕ → Type 0) (Goal : DecState → Type 0) (cls : FldCls) (a : ℕ) (s : DecState)
    (next : DecState → Done)
    → ((d : Decoder) (e : EventState) → Ends P Goal (with_states s d e) (next (with_states s d e)))
    → Ends P Goal s (then_done (with_roles cls a s) next)
unfolding with_roles
with_roles-Ends P Goal cls a s next h = elim (Bool-cases (fld_cls_roles cls == 0)) [
  | inl e ↦ rw e (h s.dec s.ev_s)
  | inr e ↦ rw e (
      after_roles-Ends P Goal s
        (handle_fld_roles s.ctx (fld_cls_roles cls) (clk_cls cls) (fld_of (s.store a).value)
          (role_state s))
        next h)
]

then_done_last : (d : Done) → then_done d done ≡ d
then_done_last (ended (ok u, s)) = refl
then_done_last (ended (err rc, s)) = refl
then_done_last overrun = refl
then_done_last endless = refl

-- Roles at the end of a call.
pub with_roles_last-Ends :
    (P : ℕ → Type 0) (Goal : DecState → Type 0) (cls : FldCls) (a : ℕ) (s : DecState)
    → ((d : Decoder) (e : EventState) → Goal (with_states s d e))
    → Ends P Goal s (with_roles cls a s)
with_roles_last-Ends P Goal cls a s h =
    subst (Ends P Goal s) (then_done_last (with_roles cls a s))
      (with_roles-Ends P Goal cls a s done (λ d e. (Kept-rfl P (with_states s d e), h d e)))

-- Alignment changes no field.
pub aligned-Ends :
    (P : ℕ → Type 0) (Goal : DecState → Type 0) (align : ℕ) (s : DecState) (next : DecState → Done)
    → ((d : Decoder) → Ends P Goal (record s { dec = d }) (next (record s { dec = d })))
    → Ends P Goal s (aligned align s next)
unfolding aligned
aligned-Ends P Goal align s next h =
    let br = (do_align s.dec.br align s.dec.pkt_s).1 in
    let t = record s { dec = record s.dec { br = br } } in
    let kept : Kept P s t = record { grows = omega arith; same = λ c h p. refl } in
    elim (Bool-cases (do_align s.dec.br align s.dec.pkt_s).0) [
      | inl e ↦ rw e (Ends-from P Goal s t (next t) kept (h (record s.dec { br = br })))
      | inr e ↦ rw e kept
    ]
