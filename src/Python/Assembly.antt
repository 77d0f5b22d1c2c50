-- ===== src/Python/Assembly.antt =====
-- The wiring of src/python.rs: the contents of the module. What pyo3 does to a module object is a
-- parameter.
pub mod Contents
use async_sctp.Common.{ℕ, ◌≡◌, refl, ap, ◌∙◌, sym, List, [], ◌∷◌, Option, none, some, Text, codes}
use async_sctp.Ppid.{name}
use async_sctp.Python.{
  PyErr, PyResult, value, exception, PyIo, Std, init_runtime, pure, raise, ◌>>=◌, ◌>>◌, World,
  returned, initialised,
}
use async_sctp.Python.Ppids.{ppids}

-- A value of a module: the exception type, a class, a constant, or a module.
pub data Item (M : Type 0) : Type 0 where
  exception_type : Item M
  recv_info config association listener server : Item M
  constant : ℕ → Item M
  module_of : M → Item M

-- What the code uses of the modules of pyo3: `new`, `add` (and `add_class`) and `setattr`.
pub record Modules (M : Type 0) : Type 0 where
  pub make : Text → PyResult M
  pub add : M → Text → Item M → PyResult M
  pub setattr : M → Text → Item M → PyResult M

abbrev pub or_raise : {A : Type 0} → PyResult A → PyIo A
or_raise (value a) = pure a
or_raise (exception e) = raise e

-- `for (name, val) in PPIDS`.
unfoldable pub add_constants : {M : Type 0} → Modules M → List (Text × ℕ) → M → PyIo M
add_constants ms [] m = pure m
add_constants ms ((label, val) ∷ rest) m =
    or_raise (ms.add m label (constant val)) >>= λ n. add_constants ms rest n

unfoldable pub add_contents : {M : Type 0} → Modules M → Std → M → PyIo M
add_contents ms s m = do
  init_runtime s
  m0 ← or_raise (ms.add m (codes "SctpError") exception_type)
  m1 ← or_raise (ms.add m0 (codes "RecvInfo") recv_info)
  m2 ← or_raise (ms.add m1 (codes "SctpConfig") config)
  m3 ← or_raise (ms.add m2 (codes "SctpAssociation") association)
  m4 ← or_raise (ms.add m3 (codes "SctpListener") listener)
  m5 ← or_raise (ms.add m4 (codes "SctpServer") server)
  add_constants ms ppids m5

-- `_async_sctp`.
unfoldable pub extension : {M : Type 0} → Modules M → Std → M → PyIo M
extension ms s m = add_contents ms s m

-- The parent module, with the new one in it.
unfoldable pub register : {M : Type 0} → Modules M → Std → M → PyIo M
register ms s parent = do
  m ← or_raise (ms.make (codes "async_sctp"))
  n ← add_contents ms s m
  or_raise (ms.setattr parent (codes "async_sctp") (module_of n))
