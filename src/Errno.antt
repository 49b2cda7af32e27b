-- ===== src/Errno.antt =====
-- The errno values of Linux that the code names.
use connio.Prelude.{ℕ}

abbrev pub eperm : ℕ
eperm = 1

abbrev pub eio : ℕ
eio = 5

abbrev pub enomem : ℕ
enomem = 12

abbrev pub ebusy : ℕ
ebusy = 16

abbrev pub einval : ℕ
einval = 22

abbrev pub emsgsize : ℕ
emsgsize = 90

abbrev pub enobufs : ℕ
enobufs = 105

abbrev pub enotconn : ℕ
enotconn = 107

abbrev pub eshutdown : ℕ
eshutdown = 108

abbrev pub etimedout : ℕ
etimedout = 110

abbrev pub ealready : ℕ
ealready = 114

abbrev pub ecanceled : ℕ
ecanceled = 125

-- Of include/connio.h.
abbrev pub econniomode : ℕ
econniomode = 779

abbrev pub econnioinit : ℕ
econnioinit = 780

abbrev pub eagain : ℕ
eagain = 11

abbrev pub eintr : ℕ
eintr = 4

abbrev pub eoverflow : ℕ
eoverflow = 75

-- The values of include/connio.h.
abbrev pub econnclosedbypeer : ℕ
econnclosedbypeer = 777

abbrev pub econniobug : ℕ
econniobug = 778

abbrev pub econniocbshort : ℕ
econniocbshort = 781

abbrev pub econniocblong : ℕ
econniocblong = 782

abbrev pub econnmoredata : ℕ
econnmoredata = 786

abbrev pub econnhandleshutdown : ℕ
econnhandleshutdown = 788

abbrev pub enotsock : ℕ
enotsock = 88

abbrev pub econnaborted : ℕ
econnaborted = 103

abbrev pub econnreset : ℕ
econnreset = 104

abbrev pub einprogress : ℕ
einprogress = 115

-- Of include/connio.h.
abbrev pub econnsslstart : ℕ
econnsslstart = 783

abbrev pub econnalreadysecured : ℕ
econnalreadysecured = 784
