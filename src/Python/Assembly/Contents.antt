-- ===== src/Python/Assembly/Contents.antt =====
-- What the Python module has when its making succeeds.
use async_sctp.Common.{
  ◌≡◌, refl, ap, ◌∙◌, Bool, true, false, if◌then◌else◌, List, [], ◌∷◌, Option, some, Text, codes,
  same, All, map,
}
use async_sctp.Kernel.{Os}
use async_sctp.Ppid.{name}
use async_sctp.Python.{
  value, PyIo, Std, init_runtime, pure, and_then, ◌>>=◌, World, PyRun, returned, initialised,
}
use async_sctp.Python.Ppids.{ppids}
use async_sctp.Python.Assembly.{
  Item, exception_type, recv_info, config, association, listener, server, constant, Modules,
  or_raise, add_constants, add_contents,
}

-- What Python promises of a module: `add` succeeds, and what was added is found, with the rest.
pub record IsModules {M : Type 0} (ms : Modules M) : Type 0 where
  pub get : M → Text → Option (Item M)
  pub adds : (m : M) (label : Text) (x : Item M) → (n : M) × (ms.add m label x ≡ value n)
  pub get-add :
      (m n : M) (label : Text) (x : Item M) → ms.add m label x ≡ value n → get n label ≡ some x
  pub get-others :
      (m n : M) (label other : Text) (x : Item M)
      → ms.add m label x ≡ value n
      → same other label ≡ false
      → get n other ≡ get m other

-- No row has the label.
abbrev pub absent : {A : Type 0} → Text → List (Text × A) → Bool
absent label [] = true
absent label ((other, x) ∷ rows) = if same label other then false else absent label rows

abbrev pub distinct : {A : Type 0} → List (Text × A) → Bool
distinct [] = true
distinct ((label, x) ∷ rows) = if absent label rows then distinct rows else false

if_absent : (b c : Bool) → (if b then false else c) ≡ true → (b ≡ false) × (c ≡ true)
if_absent true c e = cc e
if_absent false c e = (refl, e)

if_distinct : (b c : Bool) → (if b then c else false) ≡ true → (b ≡ true) × (c ≡ true)
if_distinct true c e = (refl, e)
if_distinct false c e = cc e

-- What the module is to have: the exception, the classes, and the constants.
abbrev pub contents : {M : Type 0} → List (Text × Item M)
contents =
    (codes "SctpError", exception_type)
    ∷ (codes "RecvInfo", recv_info)
    ∷ (codes "SctpConfig", config)
    ∷ (codes "SctpAssociation", association)
    ∷ (codes "SctpListener", listener)
    ∷ (codes "SctpServer", server)
    ∷ map (λ row. (row.0, constant row.1)) ppids

module _ {M : Type 0} (ms : Modules M) (is : IsModules ms) (s : Std) (os : Os) where
  -- One item after the other.
  unfoldable add_all : List (Text × Item M) → M → PyIo M
  add_all [] m = pure m
  add_all ((label, x) ∷ rows) m = or_raise (ms.add m label x) >>= λ n. add_all rows n

  -- Some items were added to a module, and nothing else.
  pub record Added (rows : List (Text × Item M)) (m : M) (w : World) (r : PyRun M) : Type 0 where
    pub made : M
    pub result : r ≡ returned made w
    pub items : All (λ row. is.get made row.0 ≡ some row.1) rows
    pub others : (label : Text) → absent label rows ≡ true → is.get made label ≡ is.get m label

  add_all-Added :
      (rows : List (Text × Item M)) (m : M) (w : World)
      → distinct rows ≡ true
      → Added rows m w (add_all rows m os w)
  unfolding add_all ◌>>=◌
  add_all-Added [] m w d = record { made = m; result = refl; items = tt; others = λ label e. refl }
  add_all-Added ((label, x) ∷ rows) m w d =
      let (n, e) = is.adds m label x in
      let (gone, later) = if_distinct (absent label rows) (distinct rows) d in
      let rest = add_all-Added rows n w later in
      record {
        made = rest.made;
        result = ap (λ r. and_then os (or_raise r os w) (add_all rows)) e ∙ rest.result;
        items = (rest.others label gone ∙ is.get-add m n label x e, rest.items);
        others = λ other a.
            let (differs, a') = if_absent (same other label) (absent other rows) a in
            rest.others other a' ∙ is.get-others m n label other x e differs;
      }

  -- The making of the module succeeds where Python takes each item. It builds the runtime where
  -- there is none yet; the module then has the exception, the five classes and the thirteen
  -- constants, each under its name, and every other name is as before.
  pub add_contents-Added :
      (m : M) (w : World)
      → Added contents m (record w { runtime = initialised s w.runtime }) (add_contents ms s m os w)
  unfolding add_contents init_runtime add_constants add_all ◌>>=◌
  add_contents-Added m w =
      add_all-Added contents m (record w { runtime = initialised s w.runtime }) refl

-- The label of each constant is the name that the crate has for it.
ppids-name : All (λ row. name row.1 ≡ some row.0) ppids
unfolding name
ppids-name = (
  refl,
  (
    refl,
    (refl, (refl, (refl, (refl, (refl, (refl, (refl, (refl, (refl, (refl, (refl, tt))))))))))),
  ),
)
