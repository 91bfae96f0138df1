-- ===== src/Journal/Steps/Rules.antt =====
-- The relation Moves between two states of the journal, and when its table of commands is sound.
use selfhost_models.Prelude.{ℕ, ◌≤◌, ◌≡◌, refl, ◌∙◌, String, true, false, some, List, length, arith}
use selfhost_models.Sql.Laws.{All}
use selfhost_models.Sql.Pairs.{Pairs}
use selfhost_models.Sql.Prefix.{Prefix, Prefix-refl, Prefix-trans, OtherKey}
use selfhost_models.Action.Keeps.{IsPreorder}
use selfhost_models.Protocol.{Command}
use selfhost_models.Journal.{
  Env, Journal, CommandRow, CommandState, Receipt, whole, accepted, executing, terminal, collected,
  is_terminal, is_collected,
}

-- how far a command has come
abbrev pub rank : CommandState → ℕ
rank accepted = 0
rank executing = 1
rank CommandState.unknown = 2
rank terminal = 3
rank collected = 4

-- A row and a later version of it: it is the same command, which has not gone back; from its end
-- on the receipt's digest stays, and the receipt too until it is collected; an acknowledgement and
-- a release are not taken back.
pub record Later (x y : CommandRow) : Type 0 where
  pub id : y.id ≡ x.id
  pub hash : y.hash ≡ x.hash
  pub forth : rank x.state ≤ rank y.state
  pub digest : 3 ≤ rank x.state → y.receipt_digest ≡ x.receipt_digest
  pub receipt : rank x.state ≡ 3 → rank y.state ≡ 3 → y.receipt ≡ x.receipt
  pub acknowledged : x.acknowledged ≡ true → y.acknowledged ≡ true
  pub released : x.outputs_released ≡ true → y.outputs_released ≡ true

-- A row has its whole command until it is collected, and a terminal row has its receipt.
pub record Shape (env : Env) (r : CommandRow) : Type 0 where
  pub whole_until : is_collected r.state ≡ false → (c : Command) × (r.command ≡ whole c)
  pub sealed :
      is_terminal r.state ≡ true
      → (x : Receipt) × (r.receipt ≡ some x) × (r.receipt_digest ≡ some (env.receipt_hash x))

abbrev pub row_id : CommandRow → String
row_id r = r.id

-- Each command has one row, there are no more than the journal may hold, and each row has its shape.
pub record IsSound (env : Env) (cs : List CommandRow) : Type 0 where
  pub ids : Pairs (OtherKey row_id) cs
  pub few : length cs ≤ env.max_commands
  pub shaped : All (Shape env) cs

pub record Moved (env : Env) (s t : Journal) : Type 0 where
  pub fence : s.fence ≤ t.fence
  pub sound : IsSound env t.commands
  pub rows : Prefix Later s.commands t.commands

abbrev pub Moves : Env → Journal → Journal → Type 0
Moves env s t = IsSound env s.commands → Moved env s t

pub Later-refl : (x : CommandRow) → Later x x
Later-refl x = record {
  id = refl;
  hash = refl;
  forth = omega arith;
  digest = λ h. refl;
  receipt = λ h k. refl;
  acknowledged = λ h. h;
  released = λ h. h;
}

-- A row that is not yet at its end may get any receipt.
pub Later-open :
    (x y : CommandRow)
    → y.id ≡ x.id
    → y.hash ≡ x.hash
    → rank x.state ≤ 2
    → rank x.state ≤ rank y.state
    → y.acknowledged ≡ x.acknowledged
    → y.outputs_released ≡ x.outputs_released
    → Later x y
Later-open x y i h a b k r = record {
  id = i;
  hash = h;
  forth = b;
  digest = λ c. absurd (omega (arith, a, c));
  receipt = λ c _. absurd (omega (arith, a, c));
  acknowledged = λ e. k ∙ e;
  released = λ e. r ∙ e;
}

Later-trans : (x y z : CommandRow) → Later x y → Later y z → Later x z
Later-trans x y z a b = record {
  id = b.id ∙ a.id;
  hash = b.hash ∙ a.hash;
  forth = omega (arith, a.forth, b.forth);
  digest = λ h. b.digest (omega (arith, h, a.forth)) ∙ a.digest h;
  receipt = λ h k.
      let m : rank y.state ≡ 3 = omega (arith, h, k, a.forth, b.forth) in
      b.receipt m k ∙ a.receipt h m;
  acknowledged = λ h. b.acknowledged (a.acknowledged h);
  released = λ h. b.released (a.released h);
}

pub Moves-IsPreorder : (env : Env) → IsPreorder (Moves env)
Moves-IsPreorder env = record {
  same = λ s h. record {
    fence = omega arith;
    sound = h;
    rows = Prefix-refl Later Later-refl s.commands;
  };
  step = λ s t u a b h.
      let m = a h in
      let n = b m.sound in
      record {
        fence = omega (arith, m.fence, n.fence);
        sound = n.sound;
        rows = Prefix-trans Later Later-trans s.commands t.commands u.commands m.rows n.rows;
      };
}
