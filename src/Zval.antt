-- ===== src/Zval.antt =====
-- PHP values as the encoder of fastjson_directwrite.c reads them. A value is the unrolling of what
-- the encoder visits: what a call of userland code gives at a visit stands in it as data, with
-- what the call did to the globals, and under a container that is visited again nothing is read.
-- A zend_long is the 64-bit two's complement pattern of its value, a double its bit pattern.
use fastjson.Prelude.{ℕ, Bool, Option, Bytes}
use fastjson.Errors.{ErrorState}

-- What userland code can change: the recorded error and serialize_precision (`none` is -1).
pub record Globals : Type 0 where
  pub last_err : ErrorState
  pub precision : Option ℕ

abbrev pub Effect : Type 0
Effect = Globals → Globals

-- A key of a PHP hash table: a zend_ulong or a string.
pub data Key : Type 0 where
  index : ℕ → Key
  name : Bytes → Key

mutual
  pub data Zval : Type 0 where
    null : Zval
    bool : Bool → Zval
    long : ℕ → Zval
    double : ℕ → Zval
    string : Bytes → Zval
    -- a hash table, with its address unless it is immutable
    array : Option ℕ → Table → Zval
    object : Props → Zval
    -- an object with jsonSerialize(), its recursion guard, and what the method does
    serializable : ℕ → Call → Zval
    backed_enum : Zval → Zval
    unbacked_enum : Zval
    reference : Zval → Zval
    -- a type that is not supported
    other : Zval

  -- The elements of a hash table in their order.
  pub data Table : Type 0 where
    end : Table
    entry : Key → Zval → Table → Table

  -- A call of jsonSerialize(): it throws, returns `$this`, or another value.
  pub data Call : Type 0 where
    call_threw : Effect → Call
    call_itself : Effect → Props → Call
    call_gave : Effect → Zval → Call

  -- zend_get_properties_for: NULL, with an exception or not; or a table, with the address that
  -- the recursion mark is set at unless that is immutable.
  pub data Props : Type 0 where
    no_props : Effect → Bool → Props
    props : Effect → Option ℕ → Slots → Props

  pub data Slots : Type 0 where
    slots_end : Slots
    slot : Key → Item → Slots → Slots

  -- What a slot of a property table holds, behind an indirection: nothing, a value, a virtual
  -- property without a get hook, or one with a hook that throws, gives nothing, or gives a value.
  pub data Item : Type 0 where
    undef : Item
    value : Zval → Item
    unreadable : Item
    hook_threw : Effect → Item
    hook_undef : Effect → Item
    hook_gave : Effect → Zval → Item
