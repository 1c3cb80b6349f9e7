-- ===== src/Client/Sync/Keeps.antt =====
-- What the session of client-py/svpclient.py leaves alone: the vault in memory, the login and the keys.
use pus_proj.Common.{
  ℕ, zero, suc, ◌≡◌, refl, ◌∙◌, inl, inr, Bool, true, false, Option, none, some, if◌then◌else◌,
}
use pus_proj.Common.Results.{Result, Error, Result-cases}
use pus_proj.Bytes.{Bytes}
use pus_proj.Client.Framing.{ClientFrame}
use pus_proj.Client.Reader.{Read, reader}
use pus_proj.Client.Act.{
  ClientCrypto, Client, Link, World, Act, pure, raise, lift, self, assign, set_conn, attempt, ◌>>=◌,
}
use pus_proj.Client.Session.{
  parse, send, put_frame, take_frame, take_next, recv_rounds, recv, expect, bytes_ahead,
}
use pus_proj.Client.Upkeep.{connected}

pub record Kept (x y : World) : Type 0 where
  pub same_vault : y.vault ≡ x.vault
  pub same_k_vault : y.client.k_vault ≡ x.client.k_vault
  pub same_k_auth : y.client.k_auth ≡ x.client.k_auth
  pub same_login : y.client.login_name ≡ x.client.login_name

pub record Keeps {ℓ} {A : Type ℓ} (m : Act A) : Type ℓ where
  pub kept : (x : World) → Kept x (m x).1

pub Kept-refl : (x : World) → Kept x x
Kept-refl x = record {
  same_vault = refl;
  same_k_vault = refl;
  same_k_auth = refl;
  same_login = refl;
}

pub Kept-trans : (x y z : World) → Kept x y → Kept y z → Kept x z
Kept-trans x y z p q = record {
  same_vault = q.same_vault ∙ p.same_vault;
  same_k_vault = q.same_k_vault ∙ p.same_k_vault;
  same_k_auth = q.same_k_auth ∙ p.same_k_auth;
  same_login = q.same_login ∙ p.same_login;
}

module _ {ℓ} {A : Type ℓ} where
  pub Keeps-pure : (a : A) → Keeps (pure a)
  unfolding pure
  Keeps-pure a = record { kept = Kept-refl }

  pub Keeps-raise : (e : Error) → Keeps (raise {A = A} e)
  unfolding raise
  Keeps-raise e = record { kept = Kept-refl }

  pub Keeps-lift : (r : Result A) → Keeps (lift r)
  unfolding lift
  Keeps-lift r = record { kept = Kept-refl }

  pub Keeps-if : (b : Bool) (m n : Act A) → Keeps m → Keeps n → Keeps (if b then m else n)
  Keeps-if true m n p q = p
  Keeps-if false m n p q = q

  pub Keeps-parse : (m : Read A) (payload : Bytes) → Keeps (parse m payload)
  unfolding parse
  Keeps-parse m payload = record {
    kept = λ x. elim (Result-cases (m (reader payload))) [
      | inl ((a, r), e) ↦ rw (parse, e) (Kept-refl x)
      | inr (b, e) ↦ rw (parse, e) (Kept-refl x)
    ];
  }

  pub Keeps-attempt :
      (m : Act A) (handler : Error → Act A)
      → Keeps m
      → ((e : Error) → Keeps (handler e))
      → Keeps (attempt m handler)
  unfolding attempt
  Keeps-attempt m handler p q = record {
    kept = λ x. elim (Result-cases (m x).0) [
      | inl (a, e) ↦ rw e (p.kept x)
      | inr (b, e) ↦ rw e (Kept-trans x (m x).1 _ (p.kept x) ((q b).kept (m x).1))
    ];
  }

pub Keeps-bind {ℓ κ} :
    {A : Type ℓ} {B : Type κ} (m : Act A) (f : A → Act B)
    → Keeps m
    → ((a : A) → Keeps (f a))
    → Keeps (m >>= f)
unfolding ◌>>=◌
Keeps-bind m f p q = record {
  kept = λ x. elim (Result-cases (m x).0) [
    | inl (a, e) ↦ rw e (Kept-trans x (m x).1 _ (p.kept x) ((q a).kept (m x).1))
    | inr (b, e) ↦ rw e (p.kept x)
  ];
}

pub Keeps-self : Keeps self
unfolding self
Keeps-self = record { kept = Kept-refl }

pub Keeps-connected : Keeps connected
unfolding connected
Keeps-connected = record { kept = Kept-refl }

pub Keeps-set_conn : (o : Option Link) → Keeps (set_conn o)
unfolding set_conn
Keeps-set_conn o = record {
  kept =
      λ x. record { same_vault = refl; same_k_vault = refl; same_k_auth = refl; same_login = refl };
}

-- An assignment to another attribute.
pub Keeps-assign :
    (f : Client → Client)
    → ((cl : Client) → (f cl).k_vault ≡ cl.k_vault)
    → ((cl : Client) → (f cl).k_auth ≡ cl.k_auth)
    → ((cl : Client) → (f cl).login_name ≡ cl.login_name)
    → Keeps (assign f)
unfolding assign
Keeps-assign f p q r = record {
  kept = λ x. record {
    same_vault = refl;
    same_k_vault = p x.client;
    same_k_auth = q x.client;
    same_login = r x.client;
  };
}

pub same {ℓ} : {A : Type ℓ} (a : A) → a ≡ a
same a = refl

pub ruleset keeps_rules = (
  Keeps-pure, Keeps-raise, Keeps-lift, Keeps-if, Keeps-parse, Keeps-attempt, Keeps-bind, Keeps-self,
  Keeps-connected, Keeps-set_conn, Keeps-assign, same,
)

module _ (c : ClientCrypto) where
  Kept-put_frame :
      (frame : ClientFrame) (key : Option Bytes) (o : Option Link) (x : World)
      → Kept x (put_frame c frame key o x).1
  unfolding put_frame
  Kept-put_frame frame key none x = Kept-refl x
  Kept-put_frame frame key (some link) x = record {
    same_vault = refl;
    same_k_vault = refl;
    same_k_auth = refl;
    same_login = refl;
  }

  pub Keeps-send :
      (type flags : ℕ) (payload : Bytes) (authed : Bool) → Keeps (send c type flags payload authed)
  unfolding send
  Keeps-send type flags payload authed = record {
    kept = λ x.
        Kept-trans x _ _
          (record { same_vault = refl; same_k_vault = refl; same_k_auth = refl; same_login = refl })
          (Kept-put_frame _ _ x.conn _);
  }

  Kept-take_frame :
      (key : Option Bytes) (o : Option Link) (x : World) → Kept x (take_frame c key o x).1
  unfolding take_frame
  Kept-take_frame key none x = Kept-refl x
  Kept-take_frame key (some link) x = record {
    same_vault = refl;
    same_k_vault = refl;
    same_k_auth = refl;
    same_login = refl;
  }

  pub Keeps-take_next : (authed : Bool) → Keeps (take_next c authed)
  unfolding take_next
  Keeps-take_next authed = record { kept = λ x. Kept-take_frame _ x.conn x }

  pub Keeps-recv_rounds : (n : ℕ) (authed : Bool) → Keeps (recv_rounds c n authed)
  unfolding recv_rounds
  Keeps-recv_rounds zero authed = Keeps-raise _
  Keeps-recv_rounds (suc n) authed =
      search (keeps_rules, Keeps-take_next, Keeps-send, Keeps-recv_rounds n) depth 10

  pub Keeps-recv : (authed : Bool) → Keeps (recv c authed)
  unfolding recv
  Keeps-recv authed = record { kept = λ x. (Keeps-recv_rounds (suc (bytes_ahead x)) authed).kept x }

  pub Keeps-expect : (type : ℕ) (authed : Bool) → Keeps (expect c type authed)
  unfolding expect
  Keeps-expect type authed = search (keeps_rules, Keeps-recv) depth 10

pub ruleset session_rules = (keeps_rules, Keeps-send, Keeps-recv, Keeps-expect)
