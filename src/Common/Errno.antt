-- ===== src/Common/Errno.antt =====
-- The negated error numbers that the code returns, with the values of Zephyr's C library. The
-- proofs use only that they are negative and differ from one another.
use tibbit.Common.Int.{ℤ, negsuc}

-- -EPERM (1)
abbrev pub eperm : ℤ
eperm = negsuc 0

-- -ENOENT (2)
abbrev pub enoent : ℤ
enoent = negsuc 1

-- -EIO (5)
abbrev pub eio : ℤ
eio = negsuc 4

-- -EAGAIN (11)
abbrev pub eagain : ℤ
eagain = negsuc 10

-- -EBUSY (16)
abbrev pub ebusy : ℤ
ebusy = negsuc 15

-- -ENODEV (19)
abbrev pub enodev : ℤ
enodev = negsuc 18

-- -EINVAL (22)
abbrev pub einval : ℤ
einval = negsuc 21

-- -ENOMSG (35)
abbrev pub enomsg : ℤ
enomsg = negsuc 34

-- -EADDRINUSE (112)
abbrev pub eaddrinuse : ℤ
eaddrinuse = negsuc 111

-- -ETIMEDOUT (116)
abbrev pub etimedout : ℤ
etimedout = negsuc 115

-- -EINPROGRESS (119)
abbrev pub einprogress : ℤ
einprogress = negsuc 118

-- -ECANCELED (140)
abbrev pub ecanceled : ℤ
ecanceled = negsuc 139

-- -EHOSTUNREACH (118)
abbrev pub ehostunreach : ℤ
ehostunreach = negsuc 117
