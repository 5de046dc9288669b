-- ===== src/Driver/Errno.antt =====
-- The negative error numbers that the driver returns, by Linux's `errno` values.
use lzamp.Base.Int.{ℤ, negsuc}

abbrev pub eio : ℤ
eio = negsuc 4

abbrev pub eagain : ℤ
eagain = negsuc 10

abbrev pub enomem : ℤ
enomem = negsuc 11

abbrev pub efault : ℤ
efault = negsuc 13

abbrev pub ebusy : ℤ
ebusy = negsuc 15

abbrev pub enodev : ℤ
enodev = negsuc 18

abbrev pub einval : ℤ
einval = negsuc 21

abbrev pub efbig : ℤ
efbig = negsuc 26

abbrev pub enospc : ℤ
enospc = negsuc 27

abbrev pub espipe : ℤ
espipe = negsuc 28

abbrev pub enodata : ℤ
enodata = negsuc 60

abbrev pub enolink : ℤ
enolink = negsuc 66

abbrev pub eproto : ℤ
eproto = negsuc 70

abbrev pub ebadmsg : ℤ
ebadmsg = negsuc 73

abbrev pub eopnotsupp : ℤ
eopnotsupp = negsuc 94

abbrev pub eshutdown : ℤ
eshutdown = negsuc 107

abbrev pub etimedout : ℤ
etimedout = negsuc 109

abbrev pub ealready : ℤ
ealready = negsuc 113

abbrev pub einprogress : ℤ
einprogress = negsuc 114

abbrev pub estale : ℤ
estale = negsuc 115

abbrev pub ecanceled : ℤ
ecanceled = negsuc 124
