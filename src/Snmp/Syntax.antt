-- ===== src/Snmp/Syntax.antt =====
-- The syntax tree of a formula, as far as services/snmp_formula.py tells its nodes apart, and the
-- errors. `ast.parse` is a parameter of the compiler.
use monitoring_maxval.Base.{Bool, true, false}
use monitoring_maxval.Base.Int.{ℤ}
use monitoring_maxval.Base.Text.{String, Text}

pub data UnaryOp : Type 0 where
  plus minus : UnaryOp
  other : UnaryOp

pub data BinaryOp : Type 0 where
  add sub mul div : BinaryOp
  other : BinaryOp

abbrev pub is_unary : UnaryOp → Bool
is_unary UnaryOp.other = false
is_unary _ = true

abbrev pub is_binary : BinaryOp → Bool
is_binary BinaryOp.other = false
is_binary _ = true

-- A constant is an integer, a float (with the text that `str` gives), a Boolean, a text or another one.
-- A call has the name of the function, the arguments, and whether there are keyword arguments. Any
-- other node is `other`, also a call of something that is not a name.
mutual
  pub data Node : Type 0 where
    whole : ℤ → Node
    float : Text → Node
    flag : Bool → Node
    literal : Text → Node
    constant : Node
    name : String → Node
    unary : UnaryOp → Node → Node
    binary : BinaryOp → Node → Node → Node
    call : String → Nodes → Bool → Node
    other : Node

  pub data Nodes : Type 0 where
    end : Nodes
    more : Node → Nodes → Nodes

-- The messages of `FormulaError`, except the last two: `signal` is an exception of the decimal module,
-- `crash` any other exception of Python.
pub data FormulaError : Type 0 where
  bad_length bad_syntax too_many_sources bad_constant unknown_name not_allowed : FormulaError
  bad_function bad_oid_argument bad_oid bad_index_argument bad_index bad_count : FormulaError
  bad_places not_number not_finite missing_source division_by_zero empty_storage : FormulaError
  bad_construction unknown_function : FormulaError
  signal crash : FormulaError

-- What goes wrong with the formula itself, and not with the values of a poll.
unfoldable pub is_structural : FormulaError → Bool
is_structural FormulaError.not_number = false
is_structural FormulaError.not_finite = false
is_structural FormulaError.missing_source = false
is_structural FormulaError.division_by_zero = false
is_structural FormulaError.empty_storage = false
is_structural FormulaError.signal = false
is_structural _ = true
