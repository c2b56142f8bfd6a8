-- ===== src/Values/Access/Held.antt =====
-- What a field holds after a typed write: `set_real_id`, `set_bool_id` and `set_string_id` of
-- src/pypilot/values.cpp.
use pypilot_cxx.Prelude.{◌≡◌, refl, Bool, true, some, arith}
use pypilot_cxx.Prelude.Text.{Text}
use pypilot_cxx.Float.{Float}
use pypilot_cxx.DataModel.{DataModel}
use pypilot_cxx.Values.Fields.{
  real, FieldId, server_running, server_port, ap_enabled, ap_mode, ap_pilot, servo_engaged,
  servo_fault,
}
use pypilot_cxx.Values.Rows.{kind_of}
use pypilot_cxx.Values.Access.{
  read_string_id, read_real_id, read_bool_id, set_string_id, set_real_id, set_bool_id, mark_dirty,
  string, store, boolean, ValueRegistry, put_real, put_bool, put_string, get_real, get_bool,
  get_string,
}

module _ {R : Type 0} ⦃fl : Float R⦄ where
  -- The value that a field holds after a write: a port is cut to its 16 bits.
  abbrev pub stored : FieldId → R → R
  stored server_port x = fl.of_nat (fl.to_u16 x)
  stored _ x = x

  get-put_real :
      (id : FieldId) (x : R) (s s' : DataModel R)
      → put_real id x s ≡ some s'
      → get_real id s' ≡ some (stored id x)
  unfolding put_real get_real
  get-put_real server_port x s s' h = ground arith
  get-put_real _ x s s' h = ground arith

  get-put_bool :
      (id : FieldId) (b : Bool) (s s' : DataModel R)
      → put_bool id b s ≡ some s'
      → get_bool id s' ≡ some b
  unfolding put_bool get_bool
  get-put_bool server_running b s s' h = ground arith
  get-put_bool _ b s s' h = ground arith

  get-put_string :
      (id : FieldId) (t : Text) (s s' : DataModel R)
      → put_string id t s ≡ some s'
      → get_string id s' ≡ some t
  unfolding put_string get_string
  get-put_string ap_mode t s s' h = ground arith
  get-put_string _ t s s' h = ground arith

  -- A field of the right kind always has a case in its switch.
  put_real-some :
      (id : FieldId) (x : R) (s : DataModel R)
      → kind_of id ≡ real
      → (s' : DataModel R) × (put_real id x s ≡ some s')
  unfolding put_real
  put_real-some server_port x s h = (_, refl)
  put_real-some server_running x s h = cc
  put_real-some ap_enabled x s h = cc
  put_real-some ap_mode x s h = cc
  put_real-some ap_pilot x s h = cc
  put_real-some servo_engaged x s h = cc
  put_real-some servo_fault x s h = cc
  put_real-some _ x s h = (_, refl)

  put_bool-some :
      (id : FieldId) (b : Bool) (s : DataModel R)
      → kind_of id ≡ boolean
      → (s' : DataModel R) × (put_bool id b s ≡ some s')
  unfolding put_bool
  put_bool-some server_running b s h = (_, refl)
  put_bool-some ap_enabled b s h = (_, refl)
  put_bool-some servo_engaged b s h = (_, refl)
  put_bool-some servo_fault b s h = (_, refl)
  put_bool-some _ b s h = cc

  put_string-some :
      (id : FieldId) (t : Text) (s : DataModel R)
      → kind_of id ≡ string
      → (s' : DataModel R) × (put_string id t s ≡ some s')
  unfolding put_string
  put_string-some ap_mode t s h = (_, refl)
  put_string-some ap_pilot t s h = (_, refl)
  put_string-some _ t s h = cc

  store-read :
      (id : FieldId) (s : DataModel R) (v : ValueRegistry R)
      → v.attached ≡ true
      → ((store id (some s) v).0 ≡ true)
        × ((store id (some s) v).1.state ≡ s)
        × ((store id (some s) v).1.attached ≡ true)
  unfolding store mark_dirty
  store-read id s v on = ground arith

  pub set_real_id-read :
      (id : FieldId) (x : R) (v : ValueRegistry R)
      → v.attached ≡ true
      → kind_of id ≡ real
      → ((set_real_id id x v).0 ≡ true)
        × (read_real_id id (set_real_id id x v).1 ≡ some (stored id x))
  unfolding set_real_id read_real_id
  set_real_id-read id x v on k =
      let (s, e) = put_real-some id x v.state k in
      let (done, state, on') = store-read id s v on in
      rw (e, on', state) (done, get-put_real id x v.state s e)

  pub set_bool_id-read :
      (id : FieldId) (b : Bool) (v : ValueRegistry R)
      → v.attached ≡ true
      → kind_of id ≡ boolean
      → ((set_bool_id id b v).0 ≡ true) × (read_bool_id id (set_bool_id id b v).1 ≡ some b)
  unfolding set_bool_id read_bool_id
  set_bool_id-read id b v on k =
      let (s, e) = put_bool-some id b v.state k in
      let (done, state, on') = store-read id s v on in
      rw (e, on', state) (done, get-put_bool id b v.state s e)

  pub set_string_id-read :
      (id : FieldId) (t : Text) (v : ValueRegistry R)
      → v.attached ≡ true
      → kind_of id ≡ string
      → ((set_string_id id t v).0 ≡ true) × (read_string_id id (set_string_id id t v).1 ≡ some t)
  unfolding set_string_id read_string_id
  set_string_id-read id t v on k =
      let (s, e) = put_string-some id t v.state k in
      let (done, state, on') = store-read id s v on in
      rw (e, on', state) (done, get-put_string id t v.state s e)
